-- ===== src/Router/Copy.antt =====
-- internal/router/router.go, copyBoundedAndFlush: a response is copied up to a limit, and an excess of
-- one byte is told from an end at the limit.
pub mod Bounds
use provider_runpod.Base.{
  ℕ, zero, suc, ◌+◌, ◌-◌, ◌*◌, Bool, false, not, List, [], ◌∷◌, ◌++◌, leb, ◌==◌, length, is_empty,
  if◌then◌else◌,
}

-- How a call of `Read` may end: with no error, at the end of the body, or broken.
pub data Ending : Type 0 where
  more eof broken : Ending

-- What a body has for the calls of `Read`, in order: bytes, which a call with a smaller buffer takes a
-- part of, and the error that comes with the last of them. Behind the list is the end of the body.
pub record Chunk : Type 0 where
  pub bytes : List ℕ
  pub ending : Ending

abbrev pub take {ℓ} : {A : Type ℓ} → ℕ → List A → List A
take zero xs = []
take (suc n) [] = []
take (suc n) (x ∷ xs) = x ∷ take n xs

abbrev pub drop {ℓ} : {A : Type ℓ} → ℕ → List A → List A
drop zero xs = xs
drop (suc n) [] = []
drop (suc n) (x ∷ xs) = drop n xs

pub record Read : Type 0 where
  pub got : List ℕ
  pub ending : Ending
  pub rest : List Chunk

-- `src.Read(buffer)` with a buffer of that size.
unfoldable pub read : ℕ → List Chunk → Read
read size [] = record { got = []; ending = eof; rest = [] }
read size (c ∷ cs) =
    if leb (length c.bytes) size
    then record { got = c.bytes; ending = c.ending; rest = cs }
    else record {
      got = take size c.bytes;
      ending = more;
      rest = record { bytes = drop size c.bytes; ending = c.ending } ∷ cs;
    }

-- What `dst.Write` makes of its bytes: how many it takes, and whether it fails.
pub record Answer : Type 0 where
  pub takes : ℕ
  pub fails : Bool

pub data Outcome : Type 0 where
  complete limit_exceeded read_failed write_failed short_write out_of_fuel : Outcome

-- The bytes that reached the client, and how it ended.
pub record Copied : Type 0 where
  pub written : List ℕ
  pub outcome : Outcome

abbrev pub stop : Outcome → Copied
stop o = record { written = []; outcome = o }

abbrev pub min : ℕ → ℕ → ℕ
min a b = if leb a b then a else b

abbrev pub buffer_size : ℕ
buffer_size = 32 * 1024

-- After the error of a call of `Read`, or with another round.
abbrev pub continue : Ending → Copied → Copied
continue eof next = stop complete
continue broken next = stop read_failed
continue more next = next

abbrev pub after : List ℕ → Copied → Copied
after bs c = record { written = bs ++ c.written; outcome = c.outcome }

-- One round of the loop, `next` being the others. A client whose answers have run out takes everything.
abbrev pub probe : Read → (List Chunk → Copied) → Copied
probe r next = if is_empty r.got then continue r.ending (next r.rest) else stop limit_exceeded

abbrev pub Next : Type 0
Next = List Chunk → List Answer → ℕ → Copied

abbrev pub settle_write : Read → Answer → List Answer → ℕ → Next → Copied
settle_write r a answers remaining next =
    let written = take a.takes r.got in
    let left = remaining - length written in
    let others = continue r.ending (next r.rest answers left) in
    if a.fails
    then after written (stop write_failed)
    else if not (length written == length r.got)
    then after written (stop short_write)
    else after written others

abbrev pub write_got : Read → List Answer → ℕ → Next → Copied
write_got r [] remaining next =
    settle_write r (record { takes = length r.got; fails = false }) [] remaining next
write_got r (a ∷ answers) remaining next = settle_write r a answers remaining next

abbrev pub forward : Read → List Answer → ℕ → Next → Copied
forward r answers remaining next =
    let others = continue r.ending (next r.rest answers remaining) in
    if is_empty r.got then others else write_got r answers remaining next

abbrev pub round : List Chunk → List Answer → ℕ → Next → Copied
round src answers zero next = probe (read 1 src) (λ rest. next rest answers zero)
round src answers (suc remaining) next =
    forward (read (min (suc remaining) buffer_size) src) answers (suc remaining) next

unfoldable pub copy_loop : ℕ → List Chunk → List Answer → ℕ → Copied
unfolding read
copy_loop zero src answers remaining = stop out_of_fuel
copy_loop (suc fuel) src answers remaining = round src answers remaining (copy_loop fuel)

-- Each call of `Read` takes a byte or a chunk, so this many rounds are enough.
abbrev pub rounds : List Chunk → ℕ
rounds [] = 1
rounds (c ∷ cs) = suc (length c.bytes) + rounds cs

-- A limit that is not positive is 0 here.
unfoldable pub copy_bounded_and_flush : List Chunk → List Answer → ℕ → Copied
unfolding copy_loop
copy_bounded_and_flush src answers zero = stop limit_exceeded
copy_bounded_and_flush src answers (suc limit) = copy_loop (rounds src) src answers (suc limit)
