-- ===== src/Stream/Growth.antt =====
-- The ids of a stream only grow, and a refused insertion changes nothing.
use carrotdb.Base.{
  ℕ, ◌≡◌, refl, subst, ◌⊎◌, inl, inr, Bool, true, false, ◌&&◌, not, List, [], ◌∷◌, Option, none,
  some, if◌then◌else◌, arith, Bool-cases,
}
use carrotdb.Stream.Id.{StreamId, is_greater, to_string}
use carrotdb.Stream.Entries.{
  Stream, StreamStatus, StreamErrorType, ok, invalid_id_format, id_not_greater_than_last,
  not_greater_than_zero, failed, store, is_zero, insert_id, stream_insert, from_string,
}

unfoldable pub is_ok : StreamErrorType → Bool
is_ok ok = true
is_ok e = false

-- What an insertion that is not refused did: the new last id, and the id in its answer.
pub record Accepted (s : Stream) (status : StreamStatus) (t : Stream) : Type 0 where
  pub grows : is_greater t.last_insert_stream_id s.last_insert_stream_id ≡ true
  pub answers : status.streamid ≡ to_string t.last_insert_stream_id

above_zero : (s t : StreamId) → is_zero s ≡ false → is_zero t ≡ true → is_greater s t ≡ true
unfolding is_zero is_greater
above_zero s t hs ht = ground arith

-- Accepted with a greater id, or refused with the stream as it was.
abbrev pub Outcome : Stream → StreamStatus × Stream → Type 0
Outcome s r =
    ((is_ok r.0.error ≡ true) × Accepted s r.0 r.1) ⊎ ((is_ok r.0.error ≡ false) × (r.1 ≡ s))

store-Outcome :
    (s : Stream) (sid : StreamId) (value : List ℕ)
    → is_greater sid s.last_insert_stream_id ≡ true
    → Outcome s (store s sid value)
unfolding store is_ok
store-Outcome s sid value h = inl (refl, record { grows = h; answers = refl })

failed-Outcome : (s : Stream) (e : StreamErrorType) → is_ok e ≡ false → Outcome s (failed e s)
unfolding failed
failed-Outcome s e h = inr (h, refl)

passes :
    (last sid : StreamId) (z : Bool)
    → is_zero sid ≡ false
    → is_zero last ≡ z
    → (not z && not (is_greater sid last)) ≡ false
    → is_greater sid last ≡ true
passes last sid true h l p = above_zero sid last h l
passes last sid false h l p = ground arith

insert_id-Outcome :
    (s : Stream) (sid : Option StreamId) (value : List ℕ) → Outcome s (insert_id s sid value)
unfolding insert_id
insert_id-Outcome s none value = failed-Outcome s invalid_id_format (unfold is_ok in refl)
insert_id-Outcome s (some sid) value =
    let last = s.last_insert_stream_id in
    elim (Bool-cases (is_zero sid)) [
      | inl e ↦ rw e (failed-Outcome s not_greater_than_zero (unfold is_ok in refl))
      | inr e ↦ elim (Bool-cases (not (is_zero last) && not (is_greater sid last))) [
        | inl f ↦ rw (e, f) (failed-Outcome s id_not_greater_than_last (unfold is_ok in refl))
        | inr f ↦ rw (e, f) (store-Outcome s sid value (passes last sid (is_zero last) e refl f))
      ]
    ]

-- An insertion into a stream either answers ok with the text of an id that is greater than the
-- stream's last one and is the last one from then on, or answers an error and leaves the stream as
-- it was.
pub stream_insert-Outcome :
    (s : Stream) (now : ℕ) (stream_id value : List ℕ)
    → Outcome s (stream_insert s now stream_id value)
unfolding stream_insert
stream_insert-Outcome s now stream_id value =
    insert_id-Outcome s (from_string s.last_insert_stream_id now stream_id) value

-- A request to XADD: the clock, the id's text and the value.
abbrev pub Request : Type 0
Request = ℕ × List ℕ × List ℕ

-- The ids that a stream accepts from a list of requests, in order.
unfoldable pub accepted_ids : Stream → List Request → List StreamId
accepted_ids s [] = []
accepted_ids s ((now, stream_id, value) ∷ requests) =
    let r = stream_insert s now stream_id value in
    let rest = accepted_ids r.1 requests in
    if is_ok r.0.error then r.1.last_insert_stream_id ∷ rest else rest

-- Each id is greater than the one before it.
abbrev pub Ascending : StreamId → List StreamId → Type 0
Ascending last [] = Unit
Ascending last (x ∷ xs) = (is_greater x last ≡ true) × Ascending x xs

one_more :
    (s : Stream) (r : StreamStatus × Stream) (rest : List StreamId)
    → Outcome s r
    → Ascending r.1.last_insert_stream_id rest
    → Ascending s.last_insert_stream_id
        (if is_ok r.0.error then r.1.last_insert_stream_id ∷ rest else rest)
one_more s r rest (inl (e, a)) h = rw e (a.grows, h)
one_more s r rest (inr (e, f)) h = rw e (subst (λ t. Ascending t.last_insert_stream_id rest) f h)

-- Whatever requests a stream gets, with whatever clock and ids, the ids of those it accepts grow
-- strictly, from its last id on.
pub accepted_ids-Ascending :
    (s : Stream) (requests : List Request)
    → Ascending s.last_insert_stream_id (accepted_ids s requests)
unfolding accepted_ids
accepted_ids-Ascending s [] = tt
accepted_ids-Ascending s ((now, stream_id, value) ∷ requests) =
    let r = stream_insert s now stream_id value in
    one_more s r (accepted_ids r.1 requests) (stream_insert-Outcome s now stream_id value)
      (accepted_ids-Ascending r.1 requests)
