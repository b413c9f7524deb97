-- ===== src/Sedimentree/CommitDag/Places.antt =====
-- src/sedimentree/commit_dag.rs: the map from hashes to places in the vector of nodes.
use beelay.Prelude.{ℕ, ◌+◌, ◌≡◌, refl, sym, ap, ◌∙◌, arith, List, [], ◌∷◌, ◌++◌, some, none}
use beelay.Prelude.{length, get_elem?, inl, inr, Bool-cases, subst, false, length-append, map}
use beelay.Prelude.{append_assoc, append-nil}
use beelay.Prelude.Equality.{contains, contains-snoc, eq_of_=?, ne_of_=?, ◌=?◌}
use beelay.Prelude.Assoc.{lookup, insert, lookup-insert_cases, lookup-insert, lookup-insert_other}
use beelay.Prelude.Vec.{get_elem?-append_some, get_elem?-push}
use beelay.Commit.{CommitHash}
use beelay.Sedimentree.Types.{LooseCommit}
use beelay.Sedimentree.Strata.{commit_hash_eq}
use beelay.Sedimentree.CommitDag.{Node, without_edges, hashes_of, node_places, nodes_of}

-- The map has the place of every hash of the list, and no other.
abbrev pub IsPlaced : List (CommitHash × ℕ) → List CommitHash → Type 0
IsPlaced m hs =
    ((h : CommitHash) (i : ℕ) → lookup m h ≡ some i → get_elem? hs i ≡ some h)
    × ((h : CommitHash) → lookup m h ≡ none → contains hs h ≡ false)

insert-IsPlaced :
    (m : List (CommitHash × ℕ)) (hs : List CommitHash) (x : CommitHash)
    → IsPlaced m hs
    → IsPlaced (insert x (length hs) m) (hs ++ x ∷ [])
insert-IsPlaced m hs x (found, missing) = (
  λ h i l. elim (lookup-insert_cases x h (length hs) i m l) [
    | inl (p, q) ↦ ap (get_elem? (hs ++ x ∷ [])) (sym q) ∙ get_elem?-push hs x ∙ ap some p
    | inr (d, l') ↦ get_elem?-append_some hs (x ∷ []) i h (found h i l')
  ],
  λ h l. elim (Bool-cases (x =? h)) [
    | inl y ↦ absurd (
        cc (
          l,
          ap (lookup (insert x (length hs) m)) (sym (eq_of_=? x h y)),
          lookup-insert x (length hs) m,
        ))
    | inr n ↦
        contains-snoc hs x h
          (missing h (sym (lookup-insert_other x h (length hs) m (ne_of_=? x h n)) ∙ l))
          (ne_of_=? x h n)
  ],
)

pub node_places-IsPlaced :
    (ns : List Node) (m : List (CommitHash × ℕ)) (hs : List CommitHash) (k : ℕ)
    → k ≡ length hs
    → IsPlaced m hs
    → IsPlaced (node_places k ns m) (hs ++ hashes_of ns)
unfolding node_places hashes_of
node_places-IsPlaced [] m hs k p h = subst (IsPlaced m) (sym (append-nil hs)) h
node_places-IsPlaced (n ∷ ns) m hs k p h =
    subst (IsPlaced (node_places (k + 1) ns (insert n.hash k m)))
      (append_assoc hs (n.hash ∷ []) (hashes_of ns))
      (node_places-IsPlaced ns (insert n.hash k m) (hs ++ n.hash ∷ []) (k + 1)
        (omega (arith, length-append hs (n.hash ∷ [])))
        (subst (λ i. IsPlaced (insert n.hash i m) (hs ++ n.hash ∷ [])) (sym p)
          (insert-IsPlaced m hs n.hash h)))

-- The hashes of the commits, and the map of their places.
abbrev pub hashes_from : List LooseCommit → List CommitHash
hashes_from cs = map (λ c. c.hash) cs

unfoldable pub map_from : List LooseCommit → List (CommitHash × ℕ)
unfolding without_edges
map_from cs = (without_edges cs).node_map

pub hashes_of-nodes_of : (cs : List LooseCommit) → hashes_of (nodes_of cs) ≡ hashes_from cs
unfolding hashes_of nodes_of
hashes_of-nodes_of [] = refl
hashes_of-nodes_of (c ∷ cs) = ap (λ hs. c.hash ∷ hs) (hashes_of-nodes_of cs)

pub map_from-IsPlaced : (cs : List LooseCommit) → IsPlaced (map_from cs) (hashes_from cs)
unfolding map_from without_edges lookup contains
map_from-IsPlaced cs =
    subst (IsPlaced (map_from cs)) (hashes_of-nodes_of cs)
      (node_places-IsPlaced (nodes_of cs) [] [] 0 refl ((λ h i l. absurd (cc l)), (λ h l. refl)))
