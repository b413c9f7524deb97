-- ===== src/Parse/Reads.antt =====
-- `Reads p bs a`: on `bs`, whatever follows it and in any context, `p` returns `a`, takes `bs`
-- and nothing more, and moves the offset by the length of `bs`. One rule for each way to build a
-- parser.
use beelay.Prelude.{ℕ, ◌+◌, ◌≡◌, ap, ◌∙◌, List, [], ◌∷◌, ◌++◌, none, some, append_assoc}
use beelay.Prelude.{append-nil, arith, subst, suc, Result, ok, and_then, length, length-append}
use beelay.Prelude.{drop_last-append, take-append, drop-append, ltb-eq_false}
use beelay.Prelude.Array.{Array, to_list, length-to_list, copy_from_slice-to_list}
use beelay.Parse.Input.{Input, Label, ParseError, Parser, read, pure, ◌>>=◌, with_context, u8}
use beelay.Parse.Input.{maybe, arr}

abbrev pub at : List Label → List ℕ → ℕ → Input
at c bs o = record { context = c; bytes = bs; offset = o }

pub record Reads {A : Type 0} (p : Parser A) (bs : List ℕ) (a : A) : Type 0 where
  pub run :
      (c : List Label) (rest : List ℕ) (o : ℕ)
      → p (at c (bs ++ rest) o) ≡ ok (at c rest (o + length bs), a)

pub read-append :
    (n : ℕ) (c : List Label) (bs rest : List ℕ) (o : ℕ)
    → length bs ≡ n
    → read n (at c (bs ++ rest) o) ≡ some (at c rest (o + n), bs)
unfolding read
read-append n c bs rest o h =
    rw (← h, ltb-eq_false (length (bs ++ rest)) (length bs) (omega (arith, length-append bs rest)))
      (rw (take-append bs rest, drop-append bs rest))

at_offset :
    {A : Type 0} (c : List Label) (rest : List ℕ) (a : A) {o o' : ℕ}
    → o ≡ o'
    → ◌≡◌ {A = Result (Input × A) ParseError} (ok (at c rest o, a)) (ok (at c rest o', a))
at_offset {A} c rest a e = ap {B = Result (Input × A) ParseError} (λ x. ok (at c rest x, a)) e

pub Reads-pure : {A : Type 0} (a : A) → Reads (pure a) [] a
unfolding pure
Reads-pure a = record { run = λ c rest o. at_offset c rest a (omega arith) }

pub Reads-bind :
    {A B : Type 0} {p : Parser A} (f : A → Parser B) {bs cs : List ℕ} {a : A} {b : B}
    → Reads p bs a
    → Reads (f a) cs b
    → Reads (p >>= f) (bs ++ cs) b
unfolding ◌>>=◌
Reads-bind f {bs = bs} {cs = cs} {b = b} r s = record {
  run = λ c rest o. rw (append_assoc bs cs rest) (
      ap (λ x. and_then x (λ (i', y). f y i')) (r.run c (cs ++ rest) o)
      ∙ s.run c rest (o + length bs)
      ∙ at_offset c rest b (omega (arith, length-append bs cs)));
}

-- A last step that takes no input.
pub Reads-map :
    {A B : Type 0} {p : Parser A} (f : A → Parser B) {bs : List ℕ} {a : A} {b : B}
    → Reads p bs a
    → Reads (f a) [] b
    → Reads (p >>= f) bs b
Reads-map {p = p} f {bs = bs} {b = b} r s =
    subst (λ x. Reads (p >>= f) x b) (append-nil bs) (Reads-bind f r s)

pub Reads-with_context :
    {A : Type 0} {p : Parser A} {bs : List ℕ} {a : A} (l : Label)
    → Reads p bs a
    → Reads (with_context l p) bs a
unfolding with_context
Reads-with_context l r = record {
  run = λ c rest o. rw (r.run (c ++ l ∷ []) rest o) (rw (drop_last-append c l));
}

pub Reads-u8 : (b : ℕ) → Reads u8 (b ∷ []) b
unfolding u8
Reads-u8 b = record { run = λ c rest o. rw (ltb-eq_false (suc (length rest)) 1 (omega arith), u8) }

pub Reads-maybe-some :
    {A : Type 0} {p : Parser A} {bs : List ℕ} {a : A}
    → Reads p bs a
    → Reads (maybe p) (1 ∷ bs) (some a)
unfolding maybe
Reads-maybe-some r =
    Reads-bind _ (Reads-map _ (Reads-u8 1) (Reads-pure _)) (Reads-map _ r (Reads-pure _))

pub Reads-maybe-none : {A : Type 0} (p : Parser A) → Reads (maybe p) (0 ∷ []) none
unfolding maybe
Reads-maybe-none p = Reads-map _ (Reads-map _ (Reads-u8 0) (Reads-pure _)) (Reads-pure _)

pub Reads-arr : {n : ℕ} (a : Array n) → Reads (arr n) (to_list a) a
unfolding arr
Reads-arr {n} a = record {
  run = λ c rest o.
      rw (read-append n c (to_list a) rest o (length-to_list a), copy_from_slice-to_list a)
        (at_offset c rest a (omega (arith, length-to_list a)));
}
