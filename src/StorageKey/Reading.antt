-- ===== src/StorageKey/Reading.antt =====
-- src/storage_key.rs: what `try_from` makes of the components of a key.
use beelay.Prelude.{ℕ, ◌≡◌, ◌⊎◌, inl, inr, refl, sym, ap, ◌∙◌, List, [], ◌∷◌, none, some}
use beelay.Prelude.{Bool-cases, any, true, false, ok, err, ◌==◌, if◌then◌else◌}
use beelay.Prelude.Pairwise.{any_here, any_cons}
use beelay.Prelude.Equality.{◌=?◌, nat_eq, nats_eq, contains, IsIn, IsIn-cases}
use beelay.Prelude.Equality.{IsIn-here, IsIn-later, nats_beq}
use beelay.StorageKey.{Namespace, dags, sedimentrees, blobs, other, StorageKey, components, as_ref}
use beelay.StorageKey.{has_slash, try_from, try_parts, namespace_of, contained_slashes}
use beelay.StorageKey.{slash, dags_name, sedimentrees_name, blobs_name}

try_from-slash :
    (v : List (List ℕ)) → any has_slash v ≡ true → try_from v ≡ some (err contained_slashes)
unfolding try_from
try_from-slash v h = rw (h) refl

try_from-parts : (v : List (List ℕ)) → any has_slash v ≡ false → try_from v ≡ try_parts v
unfolding try_from
try_from-parts v h = rw (h) refl

-- A component of the key has a slash in it.
abbrev pub HasSlash : StorageKey → Type 0
HasSlash k = (c : List ℕ) × IsIn (components k) c × IsIn c slash

-- The namespace that is read back: "dags" by its name, and any other one as `Other`.
abbrev pub reread : Namespace → Namespace
reread dags = dags
reread sedimentrees = other sedimentrees_name
reread blobs = other blobs_name
reread (other name) = if name =? dags_name then dags else other name

has_slash-IsIn : (c : List ℕ) → has_slash c ≡ true → IsIn c slash
unfolding has_slash any contains
has_slash-IsIn [] h = absurd (cc h)
has_slash-IsIn (b ∷ bs) h = elim (Bool-cases (b == slash)) [
  | inl y ↦ rw (y) refl
  | inr n ↦ IsIn-later b slash bs (has_slash-IsIn bs (sym (any_cons (λ x. x == slash) b bs n) ∙ h))
]

IsIn-has_slash : (c : List ℕ) → IsIn c slash → has_slash c ≡ true
unfolding has_slash contains
IsIn-has_slash [] h = absurd (cc h)
IsIn-has_slash (b ∷ bs) h = elim (Bool-cases (b == slash)) [
  | inl y ↦ any_here (λ x. x == slash) b bs y
  | inr n ↦ elim (IsIn-cases b slash bs h) [
    | inl p ↦ any_here (λ x. x == slash) b bs ((nat_eq.beq_iff b slash).1 p)
    | inr r ↦ any_cons (λ x. x == slash) b bs n ∙ IsIn-has_slash bs r
  ]
]

any-has_slash :
    (cs : List (List ℕ)) → any has_slash cs ≡ true → (c : List ℕ) × IsIn cs c × IsIn c slash
unfolding any contains
any-has_slash [] h = absurd (cc h)
any-has_slash (c ∷ cs) h = elim (Bool-cases (has_slash c)) [
  | inl y ↦ (c, IsIn-here c c cs refl, has_slash-IsIn c y)
  | inr n ↦
      let (x, i, j) = any-has_slash cs (sym (any_cons has_slash c cs n) ∙ h) in
      (x, IsIn-later c x cs i, j)
]

has_slash-any :
    (cs : List (List ℕ)) (c : List ℕ) → IsIn cs c → IsIn c slash → any has_slash cs ≡ true
unfolding contains
has_slash-any [] c i j = absurd (cc i)
has_slash-any (x ∷ cs) c i j = elim (Bool-cases (has_slash x)) [
  | inl y ↦ any_here has_slash x cs y
  | inr n ↦ elim (IsIn-cases x c cs i) [
    | inl p ↦ absurd (cc (n, p, IsIn-has_slash c j))
    | inr r ↦ any_cons has_slash x cs n ∙ has_slash-any cs c r j
  ]
]

namespace_of-as_ref : (n : Namespace) → namespace_of (as_ref n) ≡ reread n
unfolding namespace_of as_ref nats_beq
namespace_of-as_ref dags = refl
namespace_of-as_ref sedimentrees = refl
namespace_of-as_ref blobs = refl
namespace_of-as_ref (other name) = refl

parts_cases :
    (n : Namespace) (parts : List (List ℕ))
    → ((parts ≡ []) × (try_parts (as_ref n ∷ parts) ≡ none))
      ⊎ ((second : List ℕ) × (rest : List (List ℕ)) × (parts ≡ second ∷ rest)
          × (try_parts (as_ref n ∷ parts)
              ≡ some (ok (record { namespace = reread n; remaining = rest }))))
unfolding try_parts
parts_cases n [] = inl (refl, refl)
parts_cases n (second ∷ rest) = inr (
  second,
  rest,
  refl,
  ap (λ m. some (ok (record { namespace = m; remaining = rest }))) (namespace_of-as_ref n),
)

-- `try_from` on the components of a key: it gives the error for slashes if a component has one, and
-- otherwise it panics if the key has its namespace only, and drops the first component behind the
-- namespace if it has more; the namespaces of trees and blobs are read back as `Other`.
pub try_from-components :
    (k : StorageKey)
    → (HasSlash k × (try_from (components k) ≡ some (err contained_slashes)))
      ⊎ ((¬ HasSlash k) × (k.remaining ≡ []) × (try_from (components k) ≡ none))
      ⊎ ((¬ HasSlash k)
          × (second : List ℕ) × (rest : List (List ℕ)) × (k.remaining ≡ second ∷ rest)
          × (try_from (components k)
              ≡ some (ok (record { namespace = reread k.namespace; remaining = rest }))))
unfolding components
try_from-components k = elim (Bool-cases (any has_slash (components k))) [
  | inl y ↦ inl (any-has_slash (components k) y, try_from-slash (components k) y)
  | inr n ↦
      let clean : ¬ HasSlash k = λ (c, i, j). absurd (cc (n, has_slash-any (components k) c i j)) in
      elim (parts_cases k.namespace k.remaining) [
        | inl (p, e) ↦ inr (inl (clean, p, try_from-parts (components k) n ∙ e))
        | inr (second, rest, p, e) ↦
            inr (inr (clean, second, rest, p, try_from-parts (components k) n ∙ e))
      ]
]
