-- ===== src/Tests/Graph.antt =====
-- Three commits: the root, its child, and a commit with both and a commit that is not there as its
-- parents; and the theorems on their graph.
use beelay.Prelude.{◌≡◌, ◌≢◌, ◌↔◌, refl, List, [], ◌∷◌, some, All}
use beelay.Prelude.Array.{copy_from_slice}
use beelay.Prelude.Assoc.{lookup}
use beelay.Prelude.Equality.{IsIn, ne_of_=?}
use beelay.Prelude.Pairwise.{Pairwise}
use beelay.Commit.{CommitHash}
use beelay.Sedimentree.Types.{LooseCommit, Sedimentree}
use beelay.Sedimentree.Strata.{commit_hash_eq, minimize_strata}
use beelay.Sedimentree.CommitDag.{CommitDag, from_commits, parents_of_hash, heads}
use beelay.Sedimentree.CommitDag.Places.{hashes_from}
use beelay.Sedimentree.CommitDag.Relations.{known, parents_of_hash-from_commits}
use beelay.Sedimentree.CommitDag.Heads.{childless, heads-from_commits}
use beelay.Sedimentree.CommitDag.Traverse.{reverse_topo}
use beelay.Sedimentree.CommitDag.Traverse.Ancestors.{IsAncestor, reverse_topo-from_commits}
use beelay.Sedimentree.CommitDag.Canonical.{canonical_sequence}
use beelay.Sedimentree.CommitDag.Canonical.Tips.{IsTip}
use beelay.Sedimentree.CommitDag.Canonical.Behind.{Reaches}
use beelay.Sedimentree.CommitDag.Canonical.Sequence.{canonical_sequence-from_commits}
use beelay.Tests.{hash_100, hash_1000, blob_meta, deep, shallow, loose_commit, to_radix_be}
use beelay.Sedimentree.CommitDag.Simplify.{minimize}
use beelay.Sedimentree.CommitDag.Minimized.{minimize-some}

abbrev hash_7 : CommitHash
hash_7 = record { digest = copy_from_slice 32 (7 ∷ []) }

abbrev hash_9 : CommitHash
hash_9 = record { digest = copy_from_slice 32 (9 ∷ []) }

abbrev root : LooseCommit
root = record { hash = hash_100; parents = []; blob = blob_meta }

abbrev merge : LooseCommit
merge = record { hash = hash_7; parents = hash_1000 ∷ hash_9 ∷ hash_100 ∷ []; blob = blob_meta }

abbrev commits : List LooseCommit
commits = root ∷ loose_commit ∷ merge ∷ []

commits-distinct : Pairwise (λ a b. a ≢ b) (hashes_from commits)
unfolding beelay.Prelude.Equality.nats_beq beelay.Prelude.Array.to_list copy_from_slice
commits-distinct = (
  (ne_of_=? hash_100 hash_1000 refl, (ne_of_=? hash_100 hash_7 refl, tt)),
  ((ne_of_=? hash_1000 hash_7 refl, tt), (tt, tt)),
)

parents_of_hash-from_commits_example :
    (g : CommitDag) × (from_commits commits ≡ some g)
    × (parents_of_hash g hash_7
        ≡ some (known (hashes_from commits) (hash_1000 ∷ hash_9 ∷ hash_100 ∷ [])))
parents_of_hash-from_commits_example =
    parents_of_hash-from_commits commits 2 merge commits-distinct refl

heads-from_commits_example :
    (g : CommitDag) × (from_commits commits ≡ some g)
    × (heads g ≡ childless commits (hashes_from commits))
heads-from_commits_example = heads-from_commits commits commits-distinct

reverse_topo-from_commits_example :
    (g : CommitDag) × (hs : List CommitHash) × (from_commits commits ≡ some g)
    × (lookup g.node_map hash_7 ≡ some 2)
    × (reverse_topo g 2 ≡ some hs)
    × Pairwise (λ a b. a ≢ b) hs
    × ((h : CommitHash)
        → IsIn hs h ↔ ((d : LooseCommit) × IsAncestor commits merge d × (d.hash ≡ h)))
reverse_topo-from_commits_example = reverse_topo-from_commits commits 2 merge commits-distinct refl

canonical_sequence-from_commits_example :
    (g : CommitDag) × (hs : List CommitHash) × (from_commits commits ≡ some g)
    × (canonical_sequence to_radix_be g (deep ∷ shallow ∷ []) ≡ some hs)
    × ((h : CommitHash)
        → IsIn hs h ↔ (
            (s : CommitHash) × IsTip commits (deep ∷ shallow ∷ []) s
            × Reaches to_radix_be commits (deep ∷ shallow ∷ []) s h))
canonical_sequence-from_commits_example =
    canonical_sequence-from_commits to_radix_be commits (deep ∷ shallow ∷ []) commits-distinct

abbrev tree : Sedimentree
tree = record { strata = deep ∷ shallow ∷ []; commits = commits }

minimize-some_example :
    (m : Sedimentree) × (minimize to_radix_be (λ m. m) (λ hs. hs) tree ≡ some m)
    × (m.strata ≡ minimize_strata to_radix_be (deep ∷ shallow ∷ []))
    × ((P : LooseCommit → Type 0) → All P commits → All P m.commits)
minimize-some_example = minimize-some to_radix_be (λ m. m) (λ hs. hs) tree commits-distinct
