-- ===== src/Sedimentree/CommitDag/Heads.antt =====
-- src/sedimentree/commit_dag.rs: the heads of a graph made by `from_commits`.
use mathlib.Core.Option.{some_inj}
use beelay.Prelude.{ℕ, zero, suc, ◌+◌, ◌*◌, ◌≡◌, ◌≢◌, refl, sym, ap, ◌∙◌, List, [], ◌∷◌, Option}
use beelay.Prelude.{some, none, get_elem?, inl, inr, Bool-cases, ◌==◌, ==_iff, subst, true, false}
use beelay.Prelude.{Bool, Option-cases, ==-eq_false, if◌then◌else◌, any, ◌||◌, ◌⊎◌}
use beelay.Prelude.Equality.{contains, contains_here, contains_cons, contains-get_elem?, ◌=?◌}
use beelay.Prelude.Equality.{=?-eq_false, eq_of_=?, ne_of_=?}
use beelay.Prelude.Assoc.{lookup}
use beelay.Prelude.Pairwise.{Pairwise, place_unique, any-append_or, any_here, any_cons, any_or}
use beelay.Commit.{CommitHash}
use beelay.Sedimentree.Types.{LooseCommit}
use beelay.Sedimentree.Strata.{commit_hash_eq}
use beelay.Sedimentree.CommitDag.{CommitDag, Node, from_commits, heads, heads_of, Edge}
use beelay.Sedimentree.CommitDag.{commit_hashes, hashes_of}
use beelay.Sedimentree.CommitDag.Chains.{IsChain}
use beelay.Sedimentree.CommitDag.Links.{out_edges}
use beelay.Sedimentree.CommitDag.Places.{IsPlaced, map_from, map_from-IsPlaced, hashes_from}
use beelay.Sedimentree.CommitDag.Build.{edges_of, edges_of_parents, from_commits-Grown, hash_at}
use beelay.Sedimentree.CommitDag.Build.{HavePlaces, HavePlaces-rest}
use beelay.Sedimentree.CommitDag.Relations.{place_inj}

-- Some commit names `h` as its parent.
unfoldable pub has_child : List LooseCommit → CommitHash → Bool
unfolding any contains
has_child cs h = any (λ c. contains c.parents h) cs

-- The hashes that no commit names as its parent.
unfoldable pub childless : List LooseCommit → List CommitHash → List CommitHash
unfolding has_child
childless cs [] = []
childless cs (h ∷ hs) = if has_child cs h then childless cs hs else h ∷ childless cs hs

-- Some pair has the source `s`.
unfoldable has_source : ℕ → List (ℕ × ℕ) → Bool
unfolding any
has_source s added = any (λ p. p.0 == s) added

out_edges_nil : (s k : ℕ) → out_edges s k [] ≡ []
unfolding out_edges
out_edges_nil s k = refl

out_edges_here :
    (s s' t k : ℕ) (added : List (ℕ × ℕ))
    → (s' == s) ≡ true
    → out_edges s k ((s', t) ∷ added) ≡ (2 * k + 1, s') ∷ out_edges s (k + 1) added
unfolding out_edges
out_edges_here s s' t k added h = rw (h) refl

out_edges_cons :
    (s s' t k : ℕ) (added : List (ℕ × ℕ))
    → (s' == s) ≡ false
    → out_edges s k ((s', t) ∷ added) ≡ out_edges s (k + 1) added
unfolding out_edges
out_edges_cons s s' t k added h = rw (h) refl

-- A flag, and an option that it tells of.
abbrev Tells : {A : Type 0} → Bool → Option A → Type 0
Tells {A} b o = ((b ≡ false) × (o ≡ none)) ⊎ ((b ≡ true) × ((a : A) × (o ≡ some a)))

out_edges-has_source :
    (es : List Edge) (o : Option ℕ) (s k : ℕ) (added : List (ℕ × ℕ))
    → IsChain es o (out_edges s k added)
    → Tells (has_source s added) o
unfolding IsChain has_source
out_edges-has_source es o s k [] c = inl (refl, subst (IsChain es o) (out_edges_nil s k) c)
out_edges-has_source es o s k ((s', t) ∷ added) c = elim (Bool-cases (s' == s)) [
  | inl y ↦ inr (
    any_here (λ p. p.0 == s) (s', t) added y,
    (2 * k + 1, (subst (IsChain es o) (out_edges_here s s' t k added y) c).0),
  )
  | inr n ↦
      subst (λ b. Tells b o) (sym (any_cons (λ p. p.0 == s) (s', t) added n))
        (out_edges-has_source es o s (k + 1) added
          (subst (IsChain es o) (out_edges_cons s s' t k added n) c))
]

module _ (m : List (CommitHash × ℕ)) (hs : List CommitHash) (placed : IsPlaced m hs) where
  has_source-parents :
      (h : CommitHash) (s t : ℕ) (ps : List CommitHash)
      → lookup m h ≡ some s
      → has_source s (edges_of_parents m t ps) ≡ contains ps h
  unfolding has_source edges_of_parents contains
  has_source-parents h s t [] at = refl
  has_source-parents h s t (p ∷ ps) at = elim (Option-cases (lookup m p)) [
    | inl n ↦
        rw (edges_of_parents, n)
          (has_source-parents h s t ps at
            ∙ sym (contains_cons p h ps (=?-eq_false p h (λ q. cc (n, at, ap (lookup m) q)))))
    | inr (i, y) ↦ elim (Bool-cases (p =? h)) [
      | inl e ↦
          let same = some_inj.0 (sym y ∙ ap (lookup m) (eq_of_=? p h e) ∙ at) in
          rw (edges_of_parents, y)
            (any_here (λ q. q.0 == s) (i, t) (edges_of_parents m t ps) ((==_iff i s).1 same)
              ∙ sym (contains_here p h ps e))
      | inr d ↦
          rw (edges_of_parents, y)
            (any_cons (λ q. q.0 == s) (i, t) (edges_of_parents m t ps)
                (==-eq_false i s (λ q. ne_of_=? p h d (place_inj m hs p h i s placed y at q)))
              ∙ has_source-parents h s t ps at
              ∙ sym (contains_cons p h ps d))
    ]
  ]

  has_source-has_child :
      (h : CommitHash) (s : ℕ) (cs : List LooseCommit)
      → HavePlaces m cs
      → lookup m h ≡ some s
      → has_source s (edges_of m cs) ≡ has_child cs h
  unfolding has_source has_child edges_of any
  has_source-has_child h s [] have at = refl
  has_source-has_child h s (c ∷ cs) ((i, y), have) at =
      rw (edges_of, y)
        (any-append_or (λ p. p.0 == s) (edges_of_parents m i c.parents) (edges_of m cs)
          ∙ ap (λ b. b || has_source s (edges_of m cs)) (has_source-parents h s i c.parents at)
          ∙ ap (λ b. contains c.parents h || b) (has_source-has_child h s cs have at)
          ∙ sym (any_or (λ (x : LooseCommit). contains x.parents h) c cs))

heads_of-childless :
    (cs : List LooseCommit) (ns : List Node)
    → ((i : ℕ) (n : Node) → get_elem? ns i ≡ some n → Tells (has_child cs n.hash) n.children)
    → heads_of ns ≡ childless cs (hashes_of ns)
unfolding heads_of childless hashes_of
heads_of-childless cs [] tells = refl
heads_of-childless cs (n ∷ ns) tells = elim (tells 0 n refl) [
  | inl (f, p) ↦
      rw (heads_of, p, childless, f)
        (ap (λ hs. n.hash ∷ hs) (heads_of-childless cs ns (λ i. tells (suc i))))
  | inr (f, (e, p)) ↦ rw (heads_of, p, childless, f) (heads_of-childless cs ns (λ i. tells (suc i)))
]

pub hashes_of-get_elem? :
    (ns : List Node) (i : ℕ) (n : Node)
    → get_elem? ns i ≡ some n
    → get_elem? (hashes_of ns) i ≡ some n.hash
unfolding hashes_of
hashes_of-get_elem? [] i n f = absurd (cc f)
hashes_of-get_elem? (x ∷ ns) zero n f = ap (λ (z : Node). some z.hash) (some_inj.0 f)
hashes_of-get_elem? (x ∷ ns) (suc i) n f = hashes_of-get_elem? ns i n f

-- For commits with distinct hashes, the heads of the graph are the hashes that no commit names as
-- its parent, in the order of the commits.
pub heads-from_commits :
    (cs : List LooseCommit)
    → Pairwise (λ a b. a ≢ b) (hashes_from cs)
    → (g : CommitDag) × (from_commits cs ≡ some g) × (heads g ≡ childless cs (hashes_from cs))
unfolding heads commit_hashes
heads-from_commits cs d =
    let (g, done, hs, kept, (size, half)) = from_commits-Grown cs in
    let placed = map_from-IsPlaced cs in
    let have =
      HavePlaces-rest (map_from cs) cs (hashes_from cs) placed.1
        (λ i c f. contains-get_elem? (hashes_from cs) i c.hash (hash_at cs i c f)) in
    (
      g,
      done,
      heads_of-childless cs g.nodes (λ i n f.
            let at = ap (λ xs. get_elem? xs i) (sym hs) ∙ hashes_of-get_elem? g.nodes i n f in
            elim (Option-cases (lookup (map_from cs) n.hash)) [
              | inl l ↦
                  absurd (cc (placed.1 n.hash l, contains-get_elem? (hashes_from cs) i n.hash at))
              | inr (j, y) ↦
                  let y' =
                    y
                    ∙ ap some
                        (place_unique (hashes_from cs) j i n.hash d (placed.0 n.hash j y) at) in
                  subst (λ b. Tells b n.children)
                    (has_source-has_child (map_from cs) (hashes_from cs) placed n.hash i cs have y')
                    (out_edges-has_source g.edges n.children i 0 (edges_of (map_from cs) cs)
                      (half i n f).1)
            ])
          ∙ ap (childless cs) hs,
    )
