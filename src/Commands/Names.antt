-- ===== src/Commands/Names.antt =====
-- The words of the commands, as bytes.
use carrotdb.Base.{ℕ, List, [], ◌∷◌}

abbrev pub Text : Type 0
Text = List ℕ

abbrev pub ping_word : Text
ping_word = b'P' ∷ b'I' ∷ b'N' ∷ b'G' ∷ []

abbrev pub echo_word : Text
echo_word = b'E' ∷ b'C' ∷ b'H' ∷ b'O' ∷ []

abbrev pub set_word : Text
set_word = b'S' ∷ b'E' ∷ b'T' ∷ []

abbrev pub get_word : Text
get_word = b'G' ∷ b'E' ∷ b'T' ∷ []

abbrev pub type_word : Text
type_word = b'T' ∷ b'Y' ∷ b'P' ∷ b'E' ∷ []

abbrev pub incr_word : Text
incr_word = b'I' ∷ b'N' ∷ b'C' ∷ b'R' ∷ []

abbrev pub rpush_word : Text
rpush_word = b'R' ∷ b'P' ∷ b'U' ∷ b'S' ∷ b'H' ∷ []

abbrev pub lpush_word : Text
lpush_word = b'L' ∷ b'P' ∷ b'U' ∷ b'S' ∷ b'H' ∷ []

abbrev pub lrange_word : Text
lrange_word = b'L' ∷ b'R' ∷ b'A' ∷ b'N' ∷ b'G' ∷ b'E' ∷ []

abbrev pub llen_word : Text
llen_word = b'L' ∷ b'L' ∷ b'E' ∷ b'N' ∷ []

abbrev pub lpop_word : Text
lpop_word = b'L' ∷ b'P' ∷ b'O' ∷ b'P' ∷ []

abbrev pub blpop_word : Text
blpop_word = b'B' ∷ b'L' ∷ b'P' ∷ b'O' ∷ b'P' ∷ []

abbrev pub xadd_word : Text
xadd_word = b'X' ∷ b'A' ∷ b'D' ∷ b'D' ∷ []

abbrev pub xrange_word : Text
xrange_word = b'X' ∷ b'R' ∷ b'A' ∷ b'N' ∷ b'G' ∷ b'E' ∷ []

abbrev pub xread_word : Text
xread_word = b'X' ∷ b'R' ∷ b'E' ∷ b'A' ∷ b'D' ∷ []

abbrev pub multi_word : Text
multi_word = b'M' ∷ b'U' ∷ b'L' ∷ b'T' ∷ b'I' ∷ []

abbrev pub exec_word : Text
exec_word = b'E' ∷ b'X' ∷ b'E' ∷ b'C' ∷ []

abbrev pub discard_word : Text
discard_word = b'D' ∷ b'I' ∷ b'S' ∷ b'C' ∷ b'A' ∷ b'R' ∷ b'D' ∷ []

abbrev pub info_word : Text
info_word = b'I' ∷ b'N' ∷ b'F' ∷ b'O' ∷ []

abbrev pub replconf_word : Text
replconf_word = b'R' ∷ b'E' ∷ b'P' ∷ b'L' ∷ b'C' ∷ b'O' ∷ b'N' ∷ b'F' ∷ []

abbrev pub psync_word : Text
psync_word = b'P' ∷ b'S' ∷ b'Y' ∷ b'N' ∷ b'C' ∷ []

abbrev pub wait_word : Text
wait_word = b'W' ∷ b'A' ∷ b'I' ∷ b'T' ∷ []

abbrev pub config_word : Text
config_word = b'C' ∷ b'O' ∷ b'N' ∷ b'F' ∷ b'I' ∷ b'G' ∷ []

abbrev pub keys_word : Text
keys_word = b'K' ∷ b'E' ∷ b'Y' ∷ b'S' ∷ []

abbrev pub subscribe_word : Text
subscribe_word = b'S' ∷ b'U' ∷ b'B' ∷ b'S' ∷ b'C' ∷ b'R' ∷ b'I' ∷ b'B' ∷ b'E' ∷ []

abbrev pub publish_word : Text
publish_word = b'P' ∷ b'U' ∷ b'B' ∷ b'L' ∷ b'I' ∷ b'S' ∷ b'H' ∷ []

abbrev pub unsubscribe_word : Text
unsubscribe_word = b'U' ∷ b'N' ∷ b'S' ∷ b'U' ∷ b'B' ∷ b'S' ∷ b'C' ∷ b'R' ∷ b'I' ∷ b'B' ∷ b'E' ∷ []

abbrev pub zadd_word : Text
zadd_word = b'Z' ∷ b'A' ∷ b'D' ∷ b'D' ∷ []

abbrev pub zrank_word : Text
zrank_word = b'Z' ∷ b'R' ∷ b'A' ∷ b'N' ∷ b'K' ∷ []

abbrev pub zrange_word : Text
zrange_word = b'Z' ∷ b'R' ∷ b'A' ∷ b'N' ∷ b'G' ∷ b'E' ∷ []

abbrev pub zcard_word : Text
zcard_word = b'Z' ∷ b'C' ∷ b'A' ∷ b'R' ∷ b'D' ∷ []

abbrev pub zscore_word : Text
zscore_word = b'Z' ∷ b'S' ∷ b'C' ∷ b'O' ∷ b'R' ∷ b'E' ∷ []

abbrev pub zrem_word : Text
zrem_word = b'Z' ∷ b'R' ∷ b'E' ∷ b'M' ∷ []

abbrev pub geoadd_word : Text
geoadd_word = b'G' ∷ b'E' ∷ b'O' ∷ b'A' ∷ b'D' ∷ b'D' ∷ []

abbrev pub geopos_word : Text
geopos_word = b'G' ∷ b'E' ∷ b'O' ∷ b'P' ∷ b'O' ∷ b'S' ∷ []

abbrev pub geodist_word : Text
geodist_word = b'G' ∷ b'E' ∷ b'O' ∷ b'D' ∷ b'I' ∷ b'S' ∷ b'T' ∷ []

abbrev pub geosearch_word : Text
geosearch_word = b'G' ∷ b'E' ∷ b'O' ∷ b'S' ∷ b'E' ∷ b'A' ∷ b'R' ∷ b'C' ∷ b'H' ∷ []

abbrev pub acl_word : Text
acl_word = b'A' ∷ b'C' ∷ b'L' ∷ []

abbrev pub auth_word : Text
auth_word = b'A' ∷ b'U' ∷ b'T' ∷ b'H' ∷ []

abbrev pub ex_word : Text
ex_word = b'E' ∷ b'X' ∷ []

abbrev pub px_word : Text
px_word = b'P' ∷ b'X' ∷ []

abbrev pub block_word : Text
block_word = b'B' ∷ b'L' ∷ b'O' ∷ b'C' ∷ b'K' ∷ []

abbrev pub streams_word : Text
streams_word = b'S' ∷ b'T' ∷ b'R' ∷ b'E' ∷ b'A' ∷ b'M' ∷ b'S' ∷ []

abbrev pub replication_word : Text
replication_word = b'r' ∷ b'e' ∷ b'p' ∷ b'l' ∷ b'i' ∷ b'c' ∷ b'a' ∷ b't' ∷ b'i' ∷ b'o' ∷ b'n' ∷ []

abbrev pub listening_port_word : Text
listening_port_word =
    b'l' ∷ b'i' ∷ b's' ∷ b't' ∷ b'e' ∷ b'n' ∷ b'i' ∷ b'n' ∷ b'g' ∷ b'-' ∷ b'p' ∷ b'o' ∷ b'r' ∷ b't'
    ∷ []

abbrev pub capa_word : Text
capa_word = b'c' ∷ b'a' ∷ b'p' ∷ b'a' ∷ []

abbrev pub getack_word : Text
getack_word = b'G' ∷ b'E' ∷ b'T' ∷ b'A' ∷ b'C' ∷ b'K' ∷ []

abbrev pub ack_word : Text
ack_word = b'A' ∷ b'C' ∷ b'K' ∷ []

abbrev pub whoami_word : Text
whoami_word = b'W' ∷ b'H' ∷ b'O' ∷ b'A' ∷ b'M' ∷ b'I' ∷ []

abbrev pub getuser_word : Text
getuser_word = b'G' ∷ b'E' ∷ b'T' ∷ b'U' ∷ b'S' ∷ b'E' ∷ b'R' ∷ []

abbrev pub setuser_word : Text
setuser_word = b'S' ∷ b'E' ∷ b'T' ∷ b'U' ∷ b'S' ∷ b'E' ∷ b'R' ∷ []

abbrev pub star_word : Text
star_word = b'*' ∷ []

abbrev pub minus_one_word : Text
minus_one_word = b'-' ∷ b'1' ∷ []
