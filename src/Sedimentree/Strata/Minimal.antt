-- ===== src/Sedimentree/Strata/Minimal.antt =====
-- src/sedimentree.rs: when a stratum does not support another.
use beelay.Prelude.{◌==◌, lt→ltb, ltb-eq_false, le_or_lt, Bool-cases, sym, ◌≤◌, false, inl, inr}
use beelay.Prelude.{refl, arith, any, true, ◌∙◌, ap, ℕ, ◌&&◌, Bool, List, ◌≡◌, ==_iff, ==-refl}
use beelay.Prelude.Equality.{◌=?◌, =?-refl, eq_of_=?, array_eq, option_beq, option_beq_iff}
use beelay.Sedimentree.Strata.{Level, level_partial_cmp, level, level_ge, stratum_meta_beq}
use beelay.Sedimentree.Strata.{supports, commit_hash_eq}
use beelay.Sedimentree.Types.{Stratum, StratumMeta}

pub and_left : (a b : Bool) → (a && b) ≡ true → a ≡ true
and_left a b h = ground arith

pub and_right : (a b : Bool) → (a && b) ≡ true → b ≡ true
and_right a b h = ground arith

meta_eq :
    (a b : StratumMeta)
    → a.start ≡ b.start
    → a.end ≡ b.end
    → a.blob.hash.digest ≡ b.blob.hash.digest
    → a.blob.size_bytes ≡ b.blob.size_bytes
    → a ≡ b
meta_eq a b s e h z =
    ap (λ x. record { start = x; end = a.end; blob = a.blob }) s
    ∙ ap (λ x. record { start = b.start; end = x; blob = a.blob }) e
    ∙ ap
        (λ x. record {
          start = b.start;
          end = b.end;
          blob = record { hash = record { digest = x }; size_bytes = a.blob.size_bytes };
        })
        h
    ∙ ap
        (λ x. record {
          start = b.start;
          end = b.end;
          blob = record { hash = b.blob.hash; size_bytes = x };
        })
        z

pub eq_of_stratum_meta_beq : (a b : StratumMeta) → stratum_meta_beq a b ≡ true → a ≡ b
unfolding stratum_meta_beq
eq_of_stratum_meta_beq a b h =
    let s = option_beq a.start b.start in
    let e = a.end =? b.end in
    let d = a.blob.hash.digest =? b.blob.hash.digest in
    let z = a.blob.size_bytes == b.blob.size_bytes in
    let hs = and_right s (e && (d && z)) h in
    let hz = and_right e (d && z) hs in
    meta_eq a b ((option_beq_iff a.start b.start).0 (and_left s (e && (d && z)) h))
      (eq_of_=? a.end b.end (and_left e (d && z) hs))
      (eq_of_=? a.blob.hash.digest b.blob.hash.digest (and_left d z hz))
      ((==_iff a.blob.size_bytes b.blob.size_bytes).0 (and_right d z hz))

pub stratum_meta_beq_refl : (a : StratumMeta) → stratum_meta_beq a a ≡ true
unfolding stratum_meta_beq
stratum_meta_beq_refl a =
    rw
      (
        (option_beq_iff a.start a.start).1 refl,
        =?-refl a.end,
        =?-refl a.blob.hash.digest,
        ==-refl a.blob.size_bytes,
      )
      refl

level_ge-le : (a b : Level) → a.zeros ≤ b.zeros → level_ge a b ≡ true
unfolding level_ge level_partial_cmp
level_ge-le a b h = elim (le_or_lt b.zeros a.zeros) [
  | inl l ↦ rw (level_ge, ltb-eq_false a.zeros b.zeros l, ltb-eq_false b.zeros a.zeros h) refl
  | inr g ↦ rw (level_ge, lt→ltb a.zeros b.zeros g) refl
]

module _ (radix : List ℕ → ℕ → List ℕ) where
  -- The first is of no lower level than the second.
  abbrev pub IsAbove : Stratum → Stratum → Type 0
  IsAbove a b = (level radix b).zeros ≤ (level radix a).zeros

  abbrev pub IsUnrelated : Stratum → Stratum → Type 0
  IsUnrelated a b = (supports radix a b.meta ≡ false) × (supports radix b a.meta ≡ false)

  abbrev pub supported_by : List Stratum → StratumMeta → Bool
  supported_by ms other = any (λ m. supports radix m other) ms

  pub supports_refl : (a : Stratum) (m : StratumMeta) → a.meta ≡ m → supports radix a m ≡ true
  unfolding supports
  supports_refl a m h = rw (← h, stratum_meta_beq_refl a.meta) refl

  supports-same :
      (a b : Stratum) → stratum_meta_beq a.meta b.meta ≡ true → supports radix b a.meta ≡ true
  supports-same a b h = supports_refl b a.meta (sym (eq_of_stratum_meta_beq a.meta b.meta h))

  supports-below :
      (a b : Stratum)
      → IsAbove b a
      → stratum_meta_beq a.meta b.meta ≡ false
      → supports radix a b.meta ≡ false
  unfolding supports level
  supports-below a b h n = rw (n, level_ge-le (level radix a) (level radix b) h) refl

  pub unsupported-IsUnrelated :
      (e s : Stratum) → IsAbove e s → supports radix e s.meta ≡ false → IsUnrelated e s
  unsupported-IsUnrelated e s h n = (
    n,
    elim (Bool-cases (stratum_meta_beq s.meta e.meta)) [
      | inl y ↦ absurd (cc (n, supports-same s e y))
      | inr m ↦ supports-below s e h m
    ],
  )
