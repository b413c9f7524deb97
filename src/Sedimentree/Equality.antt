-- ===== src/Sedimentree/Equality.antt =====
-- src/sedimentree.rs: the derived `PartialEq` of loose commits, strata and their metadata.
use beelay.Prelude.{Bool, true, ◌&&◌, ◌≡◌, refl, ap, sym, ◌∙◌, ◌==◌, ==_iff, ==-refl}
use beelay.Prelude.Equality.{Eq, ◌=?◌, =?-refl, eq_of_=?, array_eq, list_beq, list_beq_iff}
use beelay.Sedimentree.Types.{LooseCommit, StratumMeta, Stratum}
use beelay.Sedimentree.Strata.{commit_hash_eq, stratum_meta_beq}
use beelay.Sedimentree.Strata.Minimal.{eq_of_stratum_meta_beq, stratum_meta_beq_refl, and_left}
use beelay.Sedimentree.Strata.Minimal.{and_right}

unfoldable pub loose_commit_beq : LooseCommit → LooseCommit → Bool
unfolding list_beq
loose_commit_beq a b =
    a.hash =? b.hash
    && (list_beq a.parents b.parents
        && (a.blob.hash.digest =? b.blob.hash.digest && a.blob.size_bytes == b.blob.size_bytes))

pub loose_commit_beq_refl : (a : LooseCommit) → loose_commit_beq a a ≡ true
unfolding loose_commit_beq
loose_commit_beq_refl a =
    rw
      (
        =?-refl a.hash,
        (list_beq_iff a.parents a.parents).1 refl,
        =?-refl a.blob.hash.digest,
        ==-refl a.blob.size_bytes,
      )
      refl

commit_eq :
    (a b : LooseCommit)
    → a.hash ≡ b.hash
    → a.parents ≡ b.parents
    → a.blob.hash.digest ≡ b.blob.hash.digest
    → a.blob.size_bytes ≡ b.blob.size_bytes
    → a ≡ b
commit_eq a b h p d z =
    ap (λ x. record { hash = x; parents = a.parents; blob = a.blob }) h
    ∙ ap (λ x. record { hash = b.hash; parents = x; blob = a.blob }) p
    ∙ ap
        (λ x. record {
          hash = b.hash;
          parents = b.parents;
          blob = record { hash = record { digest = x }; size_bytes = a.blob.size_bytes };
        })
        d
    ∙ ap
        (λ x. record {
          hash = b.hash;
          parents = b.parents;
          blob = record { hash = b.blob.hash; size_bytes = x };
        })
        z

pub eq_of_loose_commit_beq : (a b : LooseCommit) → loose_commit_beq a b ≡ true → a ≡ b
unfolding loose_commit_beq
eq_of_loose_commit_beq a b h =
    let x = a.hash =? b.hash in
    let p = list_beq a.parents b.parents in
    let d = a.blob.hash.digest =? b.blob.hash.digest in
    let z = a.blob.size_bytes == b.blob.size_bytes in
    let hp = and_right x (p && (d && z)) h in
    let hd = and_right p (d && z) hp in
    commit_eq a b (eq_of_=? a.hash b.hash (and_left x (p && (d && z)) h))
      ((list_beq_iff a.parents b.parents).0 (and_left p (d && z) hp))
      (eq_of_=? a.blob.hash.digest b.blob.hash.digest (and_left d z hd))
      ((==_iff a.blob.size_bytes b.blob.size_bytes).0 (and_right d z hd))

instance abbrev pub loose_commit_eq : Eq LooseCommit
loose_commit_eq = record {
  beq = loose_commit_beq;
  beq_iff = λ a b.
      (eq_of_loose_commit_beq a b, λ p. ap (loose_commit_beq a) (sym p) ∙ loose_commit_beq_refl a);
}

instance abbrev pub stratum_meta_eq : Eq StratumMeta
stratum_meta_eq = record {
  beq = stratum_meta_beq;
  beq_iff = λ a b.
      (eq_of_stratum_meta_beq a b, λ p. ap (stratum_meta_beq a) (sym p) ∙ stratum_meta_beq_refl a);
}

unfoldable pub stratum_beq : Stratum → Stratum → Bool
unfolding stratum_meta_beq list_beq
stratum_beq a b = stratum_meta_beq a.meta b.meta && list_beq a.checkpoints b.checkpoints

pub stratum_beq_refl : (a : Stratum) → stratum_beq a a ≡ true
unfolding stratum_beq
stratum_beq_refl a =
    rw (stratum_meta_beq_refl a.meta, (list_beq_iff a.checkpoints a.checkpoints).1 refl) refl

pub eq_of_stratum_beq : (a b : Stratum) → stratum_beq a b ≡ true → a ≡ b
unfolding stratum_beq
eq_of_stratum_beq a b h =
    let m = stratum_meta_beq a.meta b.meta in
    let c = list_beq a.checkpoints b.checkpoints in
    ap (λ x. record { meta = x; checkpoints = a.checkpoints })
      (eq_of_stratum_meta_beq a.meta b.meta (and_left m c h))
    ∙ ap (λ x. record { meta = b.meta; checkpoints = x })
        ((list_beq_iff a.checkpoints b.checkpoints).0 (and_right m c h))

instance abbrev pub stratum_eq : Eq Stratum
stratum_eq = record {
  beq = stratum_beq;
  beq_iff = λ a b. (eq_of_stratum_beq a b, λ p. ap (stratum_beq a) (sym p) ∙ stratum_beq_refl a);
}
