-- ===== src/Listpack/Insert/Gap.antt =====
-- The body of lpInsert on a block whose parts are known: the bytes before the place and behind it.
use carrotdb.Base.{
  ℕ, ◌+◌, ◌-◌, ◌%◌, ◌^◌, ◌<◌, ◌≡◌, refl, ap, ◌∙◌, Bool, true, false, List, ◌++◌, none, some, length,
  arith, if◌then◌else◌, ◌==◌, lt→ltb, le→ltb_false,
}
use carrotdb.Listpack.Backlen.{encode_backlen}
use carrotdb.Listpack.Memory.{open_gap, close_gap}
use carrotdb.Listpack.Header.{
  header, lp_hdr_numele_unknown, get_total_bytes-header, get_total_num_elements-header,
  set_total_bytes-header, set_num_elements-header, set_total_bytes, set_num_elements,
}
use carrotdb.Listpack.Insert.{
  Payload, insert_at, write_payload, update_count, make_room, fill_room, may_store, newp_of, grow,
  shrink, move_tail,
}

-- The count after one more element; 65534 becomes the mark for unknown.
abbrev pub counted_up : ℕ → ℕ
counted_up c = if c == lp_hdr_numele_unknown then c else c + 1

count_up :
    (n c : ℕ) (pl : Payload) (rest : List ℕ)
    → c < 2 ^ 16
    → update_count false (some pl) (header n c rest) ≡ header n (counted_up c) rest
unfolding update_count
count_up n c pl rest h =
    rw (get_total_num_elements-header n c rest h) (up (c == lp_hdr_numele_unknown))
  where
    up :
        (t : Bool)
        → (if t then header n c rest else set_num_elements (header n c rest) (c + 1))
          ≡ header n (if t then c else c + 1) rest
    up true = refl
    up false = set_num_elements-header n c (c + 1) rest

module _ (old c : ℕ) (a b junk enc : List ℕ) where
  -- The bytes that go in, and the length of the whole of them.
  abbrev pub pl : Payload
  pl = record { bytes = enc; enclen = length enc }

  abbrev pub room : ℕ
  room = length enc + length (encode_backlen (length enc))

  abbrev pub tail_with : List ℕ
  tail_with = enc ++ (encode_backlen (length enc) ++ b)

  room_made :
      0 < room
      → old ≡ 6 + length a + length b
      → write_payload
          (some pl)
          (make_room
            (some pl)
            false
            0
            (6 + length a)
            old
            (old + room)
            (header old c (a ++ (b ++ junk))))
          (6 + length a)
        ≡ header old c (a ++ tail_with)
  unfolding make_room grow shrink move_tail write_payload
  room_made h e =
      rw (lt→ltb old (old + room) (omega arith), le→ltb_false (old + room) old (omega arith))
        (open_gap (header old c a) b junk enc (encode_backlen (length enc)) old (6 + length a) room
          (omega arith) (omega arith) refl)

  filled :
      0 < room
      → old ≡ 6 + length a + length b
      → c < 2 ^ 16
      → fill_room (some pl) false (6 + length a) (old + room) (
          make_room
            (some pl)
            false
            0
            (6 + length a)
            old
            (old + room)
            (header old c (a ++ (b ++ junk))))
        ≡ record {
          block = header (old + room) (counted_up c) (a ++ tail_with);
          newp = some (6 + length a);
        }
  unfolding fill_room
  filled h e known =
      ap
        (λ t. record {
          block = set_total_bytes (update_count false (some pl) t) (old + room);
          newp = some (6 + length a);
        })
        (room_made h e)
      ∙ ap (λ t. record { block = set_total_bytes t (old + room); newp = some (6 + length a) })
          (count_up old c pl (a ++ tail_with) known)
      ∙ ap (λ t. record { block = t; newp = some (6 + length a) })
          (set_total_bytes-header old (counted_up c) (old + room) (a ++ tail_with))

  pub insert_at-before :
      (alloc : ℕ → Bool)
      → 0 < room
      → old ≡ 6 + length a + length b
      → c < 2 ^ 16
      → old + room < 2 ^ 32
      → alloc (old + room) ≡ true
      → insert_at alloc (header old c (a ++ (b ++ junk))) (some pl) false 0 (6 + length a)
        ≡ some (record {
          block = header (old + room) (counted_up c) (a ++ tail_with);
          newp = some (6 + length a);
        })
  unfolding insert_at
  insert_at-before alloc h e known small granted =
      rw (get_total_bytes-header old c (a ++ (b ++ junk)) (omega arith), size, allowed)
        (ap some (filled h e known))
    where
      allowed : may_store alloc old (old + room) ≡ true
      allowed = unfold may_store in rw granted (ground arith)

      size : (old + room + (2 ^ 64 - 0)) % 2 ^ 64 ≡ old + room
      size = omega arith

-- The count after one element less; the mark for unknown stays.
abbrev pub counted_down : ℕ → ℕ
counted_down c = if c == lp_hdr_numele_unknown then c else c - 1

count_down :
    (n c : ℕ) (rest : List ℕ)
    → 0 < c
    → c < 2 ^ 16
    → update_count true none (header n c rest) ≡ header n (counted_down c) rest
unfolding update_count
count_down n c rest p h =
    rw (get_total_num_elements-header n c rest h) (down (c == lp_hdr_numele_unknown))
  where
    one_less : (c + 2 ^ 32 - 1) % 2 ^ 32 ≡ c - 1
    one_less = omega arith

    down :
        (t : Bool)
        → (if t
            then header n c rest
            else set_num_elements (header n c rest) ((c + 2 ^ 32 - 1) % 2 ^ 32))
          ≡ header n (if t then c else c - 1) rest
    down true = refl
    down false = rw one_less (set_num_elements-header n c (c - 1) rest)

module _ (old c : ℕ) (a e b junk : List ℕ) where
  cut :
      0 < length e
      → old ≡ 6 + length a + (length e + length b)
      → make_room none true
          (length e)
          (6 + length a)
          old
          (old - length e)
          (header old c (a ++ (e ++ (b ++ junk))))
        ≡ header old c (a ++ b)
  unfolding make_room grow shrink move_tail
  cut h s =
      rw
        (
          le→ltb_false old (old - length e) (omega arith),
          lt→ltb (old - length e) old (omega arith),
          no_room,
        )
        (close_gap (header old c a) e b junk old (6 + length a) (omega arith) (omega arith))
    where
      no_room : 6 + length a + 0 ≡ 6 + length a
      no_room = omega arith

  pub insert_at-delete :
      (alloc : ℕ → Bool)
      → 0 < length e
      → old ≡ 6 + length a + (length e + length b)
      → 0 < c
      → c < 2 ^ 16
      → old < 2 ^ 32
      → alloc (old - length e) ≡ true
      → insert_at alloc (header old c (a ++ (e ++ (b ++ junk)))) none true (length e) (6 + length a)
        ≡ some (record {
          block = header (old - length e) (counted_down c) (a ++ b);
          newp = newp_of none (header old c (a ++ b)) (6 + length a);
        })
  unfolding insert_at
  insert_at-delete alloc h s p known small granted =
      rw (get_total_bytes-header old c (a ++ (e ++ (b ++ junk))) small, size, allowed)
        (ap some (ap (fill_room none true (6 + length a) (old - length e)) (cut h s) ∙ stored))
    where
      size : (old + 0 + (2 ^ 64 - length e)) % 2 ^ 64 ≡ old - length e
      size = omega arith

      allowed : may_store alloc old (old - length e) ≡ true
      allowed = unfold may_store in rw granted (ground arith)

      stored :
          fill_room none true (6 + length a) (old - length e) (header old c (a ++ b)) ≡ record {
            block = header (old - length e) (counted_down c) (a ++ b);
            newp = newp_of none (header old c (a ++ b)) (6 + length a);
          }
      stored =
          unfold fill_room write_payload in
          ap (λ t. record { block = t; newp = newp_of none (header old c (a ++ b)) (6 + length a) })
            (ap (λ t. set_total_bytes t (old - length e)) (count_down old c (a ++ b) p known)
              ∙ set_total_bytes-header old (counted_down c) (old - length e) (a ++ b))
