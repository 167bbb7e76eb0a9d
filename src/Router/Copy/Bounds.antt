-- ===== src/Router/Copy/Bounds.antt =====
-- internal/router/router.go, copyBoundedAndFlush: what reaches the client.
use provider_runpod.Base.{
  ℕ, zero, suc, ◌+◌, ◌-◌, ◌≤◌, ◌<◌, ◌≡◌, refl, sym, ap, ◌∙◌, ◌≢◌, true, false, not, List, [], ◌∷◌,
  ◌++◌, leb, ◌==◌, length, is_empty, length-append, append_nil, arith, if-elim,
}
use mathlib.Core.List.{append_assoc}
use provider_runpod.Router.Copy.{
  Ending, more, eof, broken, Chunk, take, drop, Read, read, Answer, Outcome, complete,
  limit_exceeded, read_failed, write_failed, short_write, out_of_fuel, Copied, stop, min,
  buffer_size, continue, after, Next, settle_write, write_got, round, copy_loop, rounds,
  copy_bounded_and_flush,
}

abbrev behind : Ending → List ℕ → List ℕ
behind more bs = bs
behind eof bs = []
behind broken bs = []

-- The bytes of a body, up to its end or to where it breaks.
abbrev pub content : List Chunk → List ℕ
content [] = []
content (c ∷ cs) = c.bytes ++ behind c.ending (content cs)

take-append-drop {ℓ} : {A : Type ℓ} (n : ℕ) (xs : List A) → take n xs ++ drop n xs ≡ xs
take-append-drop zero xs = refl
take-append-drop (suc n) [] = refl
take-append-drop (suc n) (x ∷ xs) = ap (◌∷◌ x) (take-append-drop n xs)

length-take {ℓ} : {A : Type ℓ} (n : ℕ) (xs : List A) → length (take n xs) ≤ n
length-take zero xs = omega arith
length-take (suc n) [] = omega arith
length-take (suc n) (x ∷ xs) = omega (arith, length-take n xs)

length-drop {ℓ} : {A : Type ℓ} (n : ℕ) (xs : List A) → length (drop n xs) ≡ length xs - n
length-drop zero xs = omega arith
length-drop (suc n) [] = omega arith
length-drop (suc n) (x ∷ xs) = omega (arith, length-drop n xs)

-- What a call of `Read` takes off a body.
record IsRead (size : ℕ) (src : List Chunk) (r : Read) : Type 0 where
  bytes : content src ≡ r.got ++ behind r.ending (content r.rest)
  fits : length r.got ≤ size
  shorter : r.ending ≡ more → rounds r.rest < rounds src

read-IsRead : (size : ℕ) (src : List Chunk) → 0 < size → IsRead size src (read size src)
unfolding read
read-IsRead size [] some_room = record { bytes = refl; fits = omega arith; shorter = λ e. cc }
read-IsRead size (c ∷ cs) some_room =
    if-elim (IsRead size (c ∷ cs)) (leb (length c.bytes) size) _ _
      (λ h. record { bytes = refl; fits = ground (arith, h); shorter = λ e. omega arith })
      (λ h. record {
        bytes =
            ap (λ bs. bs ++ behind c.ending (content cs)) (sym (take-append-drop size c.bytes))
            ∙ append_assoc (take size c.bytes) (drop size c.bytes) (behind c.ending (content cs));
        fits = length-take size c.bytes;
        shorter = λ e. ground (arith, h, some_room, length-drop size c.bytes);
      })

-- What the loop makes of a body, with so many bytes left to the limit.
pub record IsCopy (body : List ℕ) (remaining : ℕ) (c : Copied) : Type 0 where
  pub prefix : (rest : List ℕ) × (body ≡ c.written ++ rest)
  pub within : length c.written ≤ remaining
  pub ends : c.outcome ≢ out_of_fuel
  pub whole : c.outcome ≡ complete → c.written ≡ body
  pub over : c.outcome ≡ limit_exceeded → (length c.written ≡ remaining) × (remaining < length body)

-- The loop stops without having written more.
stopped :
    (body : List ℕ) (remaining : ℕ) (o : Outcome)
    → o ≢ out_of_fuel
    → o ≢ complete
    → o ≢ limit_exceeded
    → IsCopy body remaining (stop o)
stopped body remaining o ends undone under = record {
  prefix = (body, refl);
  within = omega arith;
  ends = ends;
  whole = λ e. absurd (undone e);
  over = λ e. absurd (under e);
}

continue_lem :
    (e : Ending) (body : List ℕ) (remaining : ℕ) (next : Copied)
    → (e ≡ more → IsCopy body remaining next)
    → IsCopy (behind e body) remaining (continue e next)
continue_lem more body remaining next h = h refl
continue_lem eof body remaining next h = record {
  prefix = ([], refl);
  within = omega arith;
  ends = cc;
  whole = λ e. refl;
  over = λ e. cc;
}
continue_lem broken body remaining next h = stopped [] remaining read_failed (cc) (cc) (cc)

after_lem :
    (bs body : List ℕ) (remaining left : ℕ) (c : Copied)
    → length bs + left ≡ remaining
    → IsCopy body left c
    → IsCopy (bs ++ body) remaining (after bs c)
after_lem bs body remaining left c spent copied =
    let (rest, split) = copied.prefix in
    record {
      prefix = (rest, rw (split, append_assoc));
      within = omega (arith, length-append bs c.written, copied.within, spent);
      ends = copied.ends;
      whole = λ e. ap (◌++◌ bs) (copied.whole e);
      over = λ e.
          let (full, more_there) = copied.over e in
          (
            omega (arith, length-append bs c.written, full, spent),
            omega (arith, length-append bs body, more_there, spent),
          );
    }

take_all {ℓ} : {A : Type ℓ} (n : ℕ) (xs : List A) → length (take n xs) ≡ length xs → take n xs ≡ xs
take_all zero [] h = refl
take_all zero (x ∷ xs) h = absurd (omega (arith, h))
take_all (suc n) [] h = refl
take_all (suc n) (x ∷ xs) h = ap (◌∷◌ x) (take_all n xs (omega (arith, h)))

length-take_le {ℓ} : {A : Type ℓ} (n : ℕ) (xs : List A) → length (take n xs) ≤ length xs
length-take_le zero xs = omega arith
length-take_le (suc n) [] = omega arith
length-take_le (suc n) (x ∷ xs) = omega (arith, length-take_le n xs)

-- A client that took a part of what was read, and an error.
partly :
    (got body : List ℕ) (n remaining : ℕ) (o : Outcome)
    → length got ≤ remaining
    → o ≢ out_of_fuel
    → o ≢ complete
    → o ≢ limit_exceeded
    → IsCopy (got ++ body) remaining (after (take n got) (stop o))
partly got body n remaining o fits ends undone under = record {
  prefix = (
    drop n got ++ body,
    rw (
      append_nil (take n got),
      sym (append_assoc (take n got) (drop n got) body),
      take-append-drop,
    ),
  );
  within = omega (arith, length-append (take n got) [], length-take_le n got, fits);
  ends = ends;
  whole = λ e. absurd (undone e);
  over = λ e. absurd (under e);
}

abbrev Copies : ℕ → Next → Type 0
Copies fuel next =
    (src : List Chunk) (answers : List Answer) (remaining : ℕ)
    → rounds src ≤ fuel
    → IsCopy (content src) remaining (next src answers remaining)

is_empty-nil {ℓ} : {A : Type ℓ} (xs : List A) → is_empty xs ≡ true → xs ≡ []
is_empty-nil [] h = refl
is_empty-nil (x ∷ xs) h = cc

min_fits : (a n : ℕ) → n ≤ min a buffer_size → n ≤ a
min_fits a n h = ground (arith, h)

rounds_pos : (src : List Chunk) → 0 < rounds src
rounds_pos [] = omega arith
rounds_pos (c ∷ cs) = omega arith

-- A byte behind the limit.
exceeded :
    (body got rest : List ℕ)
    → body ≡ got ++ rest
    → is_empty got ≡ false
    → IsCopy body zero (stop limit_exceeded)
exceeded body [] rest split h = cc
exceeded body (b ∷ got) rest split h = record {
  prefix = (body, refl);
  within = omega arith;
  ends = cc;
  whole = λ e. cc;
  over = λ e. (refl, omega (arith, ap length split));
}

module _ (fuel : ℕ) (next : Next) (copies : Copies fuel next) where
  settle_lem :
      (src : List Chunk) (r : Read) (a : Answer) (answers : List Answer) (remaining : ℕ)
      → IsRead remaining src r
      → rounds src ≤ suc fuel
      → IsCopy (content src) remaining (settle_write r a answers remaining next)
  settle_lem src r a answers remaining got enough = rw got.bytes (
      if-elim (IsCopy (r.got ++ behind r.ending (content r.rest)) remaining) a.fails _ _
        (λ _. partly r.got _ a.takes remaining write_failed got.fits (cc) (cc) (cc))
        λ _.
          if-elim (IsCopy (r.got ++ behind r.ending (content r.rest)) remaining)
            (not (length (take a.takes r.got) == length r.got)) _ _
            (λ _. partly r.got _ a.takes remaining short_write got.fits (cc) (cc) (cc))
            λ h.
              let same = take_all a.takes r.got (ground (arith, h)) in
              rw same (
                after_lem r.got _ remaining (remaining - length r.got) _ (omega (arith, got.fits)) (
                  continue_lem r.ending _ _ _ λ e.
                    copies r.rest answers (remaining - length r.got)
                      (omega (arith, got.shorter e, enough)))))

  write_lem :
      (src : List Chunk) (r : Read) (answers : List Answer) (remaining : ℕ)
      → IsRead remaining src r
      → rounds src ≤ suc fuel
      → IsCopy (content src) remaining (write_got r answers remaining next)
  write_lem src r [] remaining got enough =
      settle_lem src r (record { takes = length r.got; fails = false }) [] remaining got enough
  write_lem src r (a ∷ answers) remaining got enough =
      settle_lem src r a answers remaining got enough

  -- A call of `Read` that gave no byte.
  empty_lem :
      (src : List Chunk) (r : Read) (answers : List Answer) (size remaining : ℕ)
      → IsRead size src r
      → rounds src ≤ suc fuel
      → is_empty r.got ≡ true
      → IsCopy (content src) remaining (continue r.ending (next r.rest answers remaining))
  empty_lem src r answers size remaining got enough h =
      let none_got : r.got ≡ [] = is_empty-nil r.got h in
      let same : content src ≡ behind r.ending (content r.rest) = rw none_got at got.bytes in
      rw same (
        continue_lem r.ending _ remaining _
          λ e. copies r.rest answers remaining (omega (arith, got.shorter e, enough)))

  round_lem :
      (src : List Chunk) (answers : List Answer) (remaining : ℕ)
      → rounds src ≤ suc fuel
      → IsCopy (content src) remaining (round src answers remaining next)
  round_lem src answers zero enough =
      let got = read-IsRead 1 src (omega arith) in
      if-elim (IsCopy (content src) zero) (is_empty (read 1 src).got) _ _
        (empty_lem src (read 1 src) answers 1 zero got enough)
        (λ h. exceeded (content src) (read 1 src).got _ got.bytes h)
  round_lem src answers (suc remaining) enough =
      let size = min (suc remaining) buffer_size in
      let got = read-IsRead size src (ground arith) in
      if-elim (IsCopy (content src) (suc remaining)) (is_empty (read size src).got) _ _
        (empty_lem src (read size src) answers size (suc remaining) got enough)
        λ _.
          write_lem src (read size src) answers (suc remaining)
            (record {
              bytes = got.bytes;
              fits = min_fits (suc remaining) (length (read size src).got) got.fits;
              shorter = got.shorter;
            })
            enough

copy_loop_lem : (fuel : ℕ) → Copies fuel (copy_loop fuel)
unfolding copy_loop
copy_loop_lem zero src answers remaining enough = absurd (omega (arith, rounds_pos src, enough))
copy_loop_lem (suc fuel) src answers remaining enough =
    round_lem fuel (copy_loop fuel) (copy_loop_lem fuel) src answers remaining enough

-- A response is copied to the client in order and up to the limit: what was written is the front of the
-- body, at most as long as the limit, whatever the client takes; the loop ends; it ends without an error
-- only if the whole body was written; and it reports an exceeded limit only if exactly the limit was
-- written and the body goes on.
pub copy_bounded_and_flush-IsCopy :
    (src : List Chunk) (answers : List Answer) (limit : ℕ)
    → 0 < limit
    → IsCopy (content src) limit (copy_bounded_and_flush src answers limit)
unfolding copy_bounded_and_flush
copy_bounded_and_flush-IsCopy src answers zero some_room = absurd (omega arith)
copy_bounded_and_flush-IsCopy src answers (suc limit) some_room =
    copy_loop_lem (rounds src) src answers (suc limit) (omega arith)
