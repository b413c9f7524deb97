-- ===== src/Sedimentree/CommitDag/Chains.antt =====
-- src/sedimentree/commit_dag.rs: the linked lists of edges as lists of their places and sources.
use beelay.Prelude.{ℕ, zero, suc, ◌<◌, ◌≡◌, ◌≢◌, refl, sym, ◌∙◌, arith, List, [], ◌∷◌, ◌++◌}
use beelay.Prelude.{Option, none, some, length, get_elem?, All, length-append, inl, inr, subst}
use beelay.Prelude.{Option-cases, map, ◌≤◌}
use beelay.Prelude.Vec.{length-set, get_elem?-set, get_elem?-set_other, get_elem?-append_some}
use beelay.Prelude.Vec.{get_elem?-bound, get_elem?-push}
use beelay.Prelude.Pairwise.{Pairwise, All-map}
use beelay.Sedimentree.CommitDag.{Edge, last_edge, set_next, link, sources_from}

-- `is` are the places and the sources of the edges from `start` on.
unfoldable pub IsChain : List Edge → Option ℕ → List (ℕ × ℕ) → Type 0
IsChain es start [] = start ≡ none
IsChain es start ((i, s) ∷ is) =
    (start ≡ some i)
    × ((e : Edge) × (get_elem? es i ≡ some e) × (e.source ≡ s) × IsChain es e.next is)

abbrev pub IsBefore : ℕ × ℕ → ℕ × ℕ → Type 0
IsBefore p q = p.0 < q.0

pub chain-append :
    (es ys : List Edge) (o : Option ℕ) (is : List (ℕ × ℕ))
    → IsChain es o is
    → IsChain (es ++ ys) o is
unfolding IsChain
chain-append es ys o [] h = h
chain-append es ys o ((i, s) ∷ is) (h, (e, g, p, r)) =
    (h, (e, get_elem?-append_some es ys i e g, p, chain-append es ys e.next is r))

get_elem?-set_next :
    (l d : ℕ) (es : List Edge) (e : Edge)
    → get_elem? es l ≡ some e
    → get_elem? (set_next l d es) l ≡ some (record e { next = some d })
unfolding set_next
get_elem?-set_next l d es e h =
    rw (set_next, h) (get_elem?-set es l (record e { next = some d }) (get_elem?-bound es l e h))

pub get_elem?-set_next_other :
    (l d j : ℕ) (es : List Edge) → l ≢ j → get_elem? (set_next l d es) j ≡ get_elem? es j
unfolding set_next
get_elem?-set_next_other l d j es h = elim (Option-cases (get_elem? es l)) [
  | inl n ↦ rw (set_next, n) refl
  | inr (e, y) ↦ rw (set_next, y) (get_elem?-set_other es l j (record e { next = some d }) h)
]

pub length-set_next : (l d : ℕ) (es : List Edge) → length (set_next l d es) ≡ length es
unfolding set_next
length-set_next l d es = elim (Option-cases (get_elem? es l)) [
  | inl n ↦ rw (set_next, n) refl
  | inr (e, y) ↦ rw (set_next, y) (length-set es l (record e { next = some d }))
]

pub chain-set_next :
    (l d : ℕ) (es : List Edge) (o : Option ℕ) (is : List (ℕ × ℕ))
    → All (λ p. l ≢ p.0) is
    → IsChain es o is
    → IsChain (set_next l d es) o is
unfolding IsChain
chain-set_next l d es o [] a h = h
chain-set_next l d es o ((i, s) ∷ is) (a, rest) (h, (e, g, p, r)) =
    (h, (e, get_elem?-set_next_other l d i es a ∙ g, p, chain-set_next l d es e.next is rest r))

-- The walk to the end of a list, and what it leaves when the edge at `new` is put there.
module _ (es : List Edge) (new : ℕ) (last : Edge) (at_new : get_elem? es new ≡ some last)
    (no_next : last.next ≡ none) where
  record Walked (i s : ℕ) (rest : List (ℕ × ℕ)) (fuel : ℕ) : Type 1 where
    end_of : ℕ
    found : last_edge fuel es i ≡ some end_of
    longer : IsChain (set_next end_of new es) (some i) ((i, s) ∷ rest ++ (new, last.source) ∷ [])
    member : (P : ℕ → Type 0) → All (λ p. P p.0) ((i, s) ∷ rest) → P end_of

  walk :
      (fuel i s : ℕ) (rest : List (ℕ × ℕ))
      → length rest < fuel
      → IsChain es (some i) ((i, s) ∷ rest)
      → Pairwise IsBefore ((i, s) ∷ rest)
      → All (λ p. p.0 < new) ((i, s) ∷ rest)
      → Walked i s rest fuel
  unfolding IsChain last_edge
  walk zero i s rest f c b n = absurd (omega arith)
  walk (suc fuel) i s [] f (h, (e, g, p, r)) b (n, _) = record {
    end_of = i;
    found = rw (last_edge, g, r) refl;
    longer = (
      refl,
      (
        record e { next = some new },
        get_elem?-set_next i new es e g,
        p,
        (
          refl,
          (last, get_elem?-set_next_other i new new es (λ q. omega arith) ∙ at_new, refl, no_next),
        ),
      ),
    );
    member = λ P a. a.0;
  }
  walk (suc fuel) i s ((j, t) ∷ rest) f (h, (e, g, p, r)) (b, bs) (n, ns) =
      let w = walk fuel j t rest (omega arith) (refl, r.1) bs ns in
      let behind = w.member (λ x. i < x) b in
      record {
        end_of = w.end_of;
        found = rw (last_edge, g, r.0) w.found;
        longer = (
          refl,
          (
            e,
            get_elem?-set_next_other w.end_of new i es (λ q. omega arith) ∙ g,
            p,
            subst
                (λ o.
                  IsChain (set_next w.end_of new es) o ((j, t) ∷ rest ++ (new, last.source) ∷ []))
                (sym r.0) w.longer,
          ),
        );
        member = λ P a. w.member P a.1;
      }

-- What `link` leaves: the list is longer by the new edge, and the lists that share no edge with it
-- are what they were.
pub record Linked (es : List Edge) (source target : ℕ) (head : Option ℕ) (is : List (ℕ × ℕ))
    : Type 1 where
  pub head' : Option ℕ
  pub es' : List Edge
  pub done :
      link head (length es) (es ++ record { source = source; target = target; next = none } ∷ [])
      ≡ some (head', es')
  pub size : length es' ≡ suc (length es)
  pub chain : IsChain es' head' (is ++ (length es, source) ∷ [])
  pub others :
      (o : Option ℕ) (js : List (ℕ × ℕ))
      → IsChain es o js
      → All (λ q. All (λ p. p.0 ≢ q.0) is) js
      → IsChain es' o js

pub link-Linked :
    (es : List Edge) (source target : ℕ) (head : Option ℕ) (is : List (ℕ × ℕ))
    → IsChain es head is
    → Pairwise IsBefore is
    → All (λ p. p.0 < length es) is
    → length is ≤ length es
    → Linked es source target head is
unfolding IsChain link
link-Linked es source target head [] c b n f =
    let new_edge : Edge = record { source = source; target = target; next = none } in
    record {
      head' = some (length es);
      es' = es ++ new_edge ∷ [];
      done = rw (c) refl;
      size = omega (arith, length-append es (new_edge ∷ []));
      chain = (refl, (new_edge, get_elem?-push es new_edge, refl, refl));
      others = λ o js h d. chain-append es (new_edge ∷ []) o js h;
    }
link-Linked es source target head ((i, s) ∷ is) (c, cs) b n f =
    let new_edge : Edge = record { source = source; target = target; next = none } in
    let long = es ++ new_edge ∷ [] in
    let w =
      walk long (length es) new_edge (get_elem?-push es new_edge) refl (length long) i s is
        (omega (arith, length-append es (new_edge ∷ [])))
        (chain-append es (new_edge ∷ []) (some i) ((i, s) ∷ is) (refl, cs)) b n in
    record {
      head' = some i;
      es' = set_next w.end_of (length es) long;
      done = rw (c, link, w.found) refl;
      size =
          omega
            (arith, length-set_next w.end_of (length es) long, length-append es (new_edge ∷ []));
      chain = w.longer;
      others = λ o js h d.
          chain-set_next w.end_of (length es) long o js
            (All-map (λ q. All (λ p. p.0 ≢ q.0) ((i, s) ∷ is)) (λ q. w.end_of ≢ q.0)
              (λ q a. w.member (λ x. x ≢ q.0) a) js d)
            (chain-append es (new_edge ∷ []) o js h);
    }

-- The iterator `Parents` gives the sources of a list of edges.
pub sources_from-chain :
    (fuel : ℕ) (es : List Edge) (o : Option ℕ) (is : List (ℕ × ℕ))
    → IsChain es o is
    → length is < fuel
    → sources_from fuel es o ≡ some (map (λ p. p.1) is)
unfolding IsChain sources_from
sources_from-chain zero es o is c f = absurd (omega arith)
sources_from-chain (suc fuel) es o [] c f = rw (c) refl
sources_from-chain (suc fuel) es o ((i, s) ∷ is) (c, (e, g, p, r)) f =
    rw (c, sources_from, g, sources_from-chain fuel es e.next is r (omega arith), p) refl
