-- ===== src/Effects/Puts.antt =====
-- src/effects.rs: the puts that are pending.
use beelay.Prelude.{ℕ, true, List, [], ◌∷◌, some, ◌≡◌, ◌≢◌, refl, sym, ◌∙◌, All, inl, inr}
use beelay.Prelude.{Bool-cases, subst, if◌then◌else◌}
use beelay.Prelude.Equality.{Eq, nat_eq, ◌=?◌, eq_of_=?, ne_of_=?}
use beelay.Prelude.Assoc.{lookup_here, lookup_skip, lookup, insert, lookup-insert}
use beelay.Prelude.Assoc.{lookup-insert_other}
use beelay.Ids.{RequestId}
use beelay.StorageKey.{StorageKey, is_prefix_of}
use beelay.StorageKey.Equality.{key_eq}
use beelay.Effects.{Io, start_put, start_load_range, cached_puts, with_cached}

-- Pending puts under other keys leave what is cached for a key.
cached_puts-other :
    (prefix key : StorageKey) (puts : List (ℕ × (StorageKey × List ℕ)))
    (cached : List (StorageKey × List ℕ))
    → All (λ p. p.1.0 ≢ key) puts
    → lookup (cached_puts prefix puts cached) key ≡ lookup cached key
unfolding cached_puts
cached_puts-other prefix key [] cached a = refl
cached_puts-other prefix key ((id, (k, v)) ∷ puts) cached (ne, a) =
    cached_puts-other prefix key puts (if is_prefix_of prefix k then insert k v cached else cached)
      a
    ∙ elim (Bool-cases (is_prefix_of prefix k)) [
      | inl y ↦ rw (y) (lookup-insert_other k key v cached ne)
      | inr n ↦ rw (n) refl
    ]

cached_puts-insert :
    (prefix key : StorageKey) (value : List ℕ) (id : ℕ) (puts : List (ℕ × (StorageKey × List ℕ)))
    (cached : List (StorageKey × List ℕ))
    → is_prefix_of prefix key ≡ true
    → All (λ p. p.1.0 ≢ key) puts
    → lookup (cached_puts prefix (insert id (key, value) puts) cached) key ≡ some value
unfolding cached_puts insert
cached_puts-insert prefix key value id [] cached y a = rw (y) (lookup-insert key value cached)
cached_puts-insert prefix key value id ((id', (k, v)) ∷ puts) cached y (ne, a) =
    elim (Bool-cases (id' =? id)) [
      | inl same ↦
          rw (same, cached_puts, y)
            (cached_puts-other prefix key puts (insert key value cached) a
              ∙ lookup-insert key value cached)
      | inr differ ↦
          rw (differ, cached_puts)
            (cached_puts-insert prefix key value id puts
              (if is_prefix_of prefix k then insert k v cached else cached) y a)
    ]

lookup-with_cached :
    (stored cached : List (StorageKey × List ℕ)) (key : StorageKey) (value : List ℕ)
    → lookup cached key ≡ some value
    → lookup (with_cached stored cached) key ≡ some value
unfolding with_cached lookup
lookup-with_cached stored [] key value h = absurd (cc h)
lookup-with_cached stored ((k, v) ∷ cached) key value h = elim (Bool-cases (k =? key)) [
  | inl y ↦
      subst (λ x. lookup (insert k v (with_cached stored cached)) x ≡ some value) (eq_of_=? k key y)
        (lookup-insert k v (with_cached stored cached) ∙ sym (lookup_here k key v cached y) ∙ h)
  | inr n ↦
      lookup-insert_other k key v (with_cached stored cached) (ne_of_=? k key n)
      ∙ lookup-with_cached stored cached key value (sym (lookup_skip k key v cached n) ∙ h)
]

module _ {Task : Type 0} ⦃et : Eq Task⦄ ⦃er : Eq RequestId⦄ where
  -- A task that puts a value at a key, at which no other put is pending, finds the value there in a
  -- range that it loads before the put is done, whatever the storage has.
  pub load_range-start_put :
      (t u : Task) (id id' : ℕ) (prefix key : StorageKey) (value : List ℕ)
      (stored : List (StorageKey × List ℕ)) (io : Io Task)
      → is_prefix_of prefix key ≡ true
      → All (λ p. p.1.0 ≢ key) io.pending_puts
      → lookup
          (with_cached stored (start_load_range u id' prefix (start_put t id key value io).0).1.1)
          key
        ≡ some value
  unfolding start_load_range start_put
  load_range-start_put t u id id' prefix key value stored io y a =
      lookup-with_cached stored (cached_puts prefix (insert id (key, value) io.pending_puts) []) key
        value (cached_puts-insert prefix key value id io.pending_puts [] y a)
