-- ===== src/Utils/Examples.antt =====
-- The theorem on number texts at one number.
use carrotdb.Base.{◌≡◌, some, arith}
use carrotdb.Base.Decimal.{print_u64}
use carrotdb.Utils.{convert_positive_string_to_number}
use carrotdb.Utils.Print.{convert_positive_string_to_number-print}

convert_positive_string_to_number-print_example :
    convert_positive_string_to_number (print_u64 1234) ≡ some 1234
convert_positive_string_to_number-print_example =
    convert_positive_string_to_number-print 1234 (omega arith)
