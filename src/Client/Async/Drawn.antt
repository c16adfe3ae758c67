-- ===== src/Client/Async/Drawn.antt =====
-- Lists drawn from others, and the goroutines of client/client.go whose responses are to come.
use kuja.Prelude.{◌≡◌, refl, ap, List, [], ◌∷◌, ◌++◌, map, All}
use kuja.Client.Async.Goroutines.{AsyncRequest, Phase, starts, configures, calls, ended}

-- The first list is drawn from the second, element by element: it is the second in some order.
pub data Drawn {A : Type 0} : List A → List A → Type 0 where
  drawn_all : Drawn [] []
  draws :
      {order : List A} (before after : List A) (a : A)
      → Drawn order (before ++ after)
      → Drawn (a ∷ order) (before ++ (a ∷ after))

abbrev pub IsBehind : Phase → Type 0
IsBehind starts = ⊥
IsBehind configures = ⊥
IsBehind calls = Unit
IsBehind ended = Unit

module _ {Value : Type 0} where
  -- The requests that are behind the map and have not been answered.
  abbrev pub pending : List (AsyncRequest Value × Phase) → List (AsyncRequest Value)
  pending [] = []
  pending ((a, starts) ∷ gs) = pending gs
  pending ((a, configures) ∷ gs) = pending gs
  pending ((a, calls) ∷ gs) = a ∷ pending gs
  pending ((a, ended) ∷ gs) = pending gs

  abbrev pub AllBehind : List (AsyncRequest Value × Phase) → Type 0
  AllBehind gs = All (λ g. IsBehind g.1) gs

  -- Where a pending request stands among the goroutines; the others are those that are pending when
  -- it has been answered.
  pub record Stands (gs : List (AsyncRequest Value × Phase)) (a : AsyncRequest Value)
      (others : List (AsyncRequest Value)) : Type 0 where
    pub front : List (AsyncRequest Value × Phase)
    pub back : List (AsyncRequest Value × Phase)
    pub at : gs ≡ front ++ ((a, calls) ∷ back)
    pub left : pending (front ++ ((a, ended) ∷ back)) ≡ others
    pub behind : AllBehind (front ++ ((a, ended) ∷ back))

  pub pending-Stands :
      (gs : List (AsyncRequest Value × Phase)) (before after : List (AsyncRequest Value))
      (a : AsyncRequest Value)
      → AllBehind gs
      → pending gs ≡ before ++ (a ∷ after)
      → Stands gs a (before ++ after)
  pending-Stands [] [] after a all e = absurd cc
  pending-Stands [] (b ∷ before) after a all e = absurd cc
  pending-Stands ((c, starts) ∷ gs) before after a (is, all) e = elim is [ ]
  pending-Stands ((c, configures) ∷ gs) before after a (is, all) e = elim is [ ]
  pending-Stands ((c, calls) ∷ gs) [] after a (is, all) e =
      let same : c ≡ a = cc in
      record {
        front = [];
        back = gs;
        at = ap (λ d. (d, calls) ∷ gs) same;
        left = cc;
        behind = (tt, all);
      }
  pending-Stands ((c, calls) ∷ gs) (b ∷ before) after a (is, all) e =
      let same : c ≡ b = cc in
      let rest : pending gs ≡ before ++ (a ∷ after) = cc in
      let s = pending-Stands gs before after a all rest in
      record {
        front = (c, calls) ∷ s.front;
        back = s.back;
        at = ap (λ t. (c, calls) ∷ t) s.at;
        left = rw (s.left, same) refl;
        behind = (tt, s.behind);
      }
  pending-Stands ((c, ended) ∷ gs) before after a (is, all) e =
      let s = pending-Stands gs before after a all e in
      record {
        front = (c, ended) ∷ s.front;
        back = s.back;
        at = ap (λ t. (c, ended) ∷ t) s.at;
        left = s.left;
        behind = (tt, s.behind);
      }

  pub none-pending :
      (gs : List (AsyncRequest Value × Phase))
      → AllBehind gs
      → pending gs ≡ []
      → All (λ g. g.1 ≡ ended) gs
  none-pending [] all e = tt
  none-pending ((c, starts) ∷ gs) (is, all) e = elim is [ ]
  none-pending ((c, configures) ∷ gs) (is, all) e = elim is [ ]
  none-pending ((c, calls) ∷ gs) (is, all) e = absurd cc
  none-pending ((c, ended) ∷ gs) (is, all) e = (refl, none-pending gs all e)

  pub pending-calls :
      (requests : List (AsyncRequest Value)) → pending (map (λ a. (a, calls)) requests) ≡ requests
  pending-calls [] = refl
  pending-calls (a ∷ requests) = ap (λ t. a ∷ t) (pending-calls requests)

  pub calls-AllBehind :
      (requests : List (AsyncRequest Value)) → AllBehind (map (λ a. (a, calls)) requests)
  calls-AllBehind [] = tt
  calls-AllBehind (a ∷ requests) = (tt, calls-AllBehind requests)
