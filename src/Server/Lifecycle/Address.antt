-- ===== src/Server/Lifecycle/Address.antt =====
-- The host and the port of the nodes that a server registers.
use mathlib.Core.List.{append_assoc}
use mathlib.Core.Path.{subst}
use kuja.Prelude.{
  ℕ, ◌≡◌, ◌⊎◌, inl, inr, refl, sym, ap, ◌∙◌, arith, ◌==◌, false, Bool-cases, List, [], ◌∷◌, ◌++◌,
  All, Str,
}
use kuja.Server.Lifecycle.{split_colon, split_last, host_port_of, host_port}

-- A text of parts with colons between them.
abbrev with_colons : Str → List Str → Str
with_colons part [] = part
with_colons part (next ∷ parts) = part ++ (b':' ∷ with_colons next parts)

with_colons-cons :
    (c : ℕ) (part : Str) (parts : List Str)
    → with_colons (c ∷ part) parts ≡ c ∷ with_colons part parts
with_colons-cons c part [] = refl
with_colons-cons c part (next ∷ parts) = refl

split_colon_lem : (s : Str) → with_colons (split_colon s).0 (split_colon s).1 ≡ s
unfolding split_colon
split_colon_lem [] = refl
split_colon_lem (c ∷ s) =
    let ih = split_colon_lem s in
    elim (Bool-cases (c == b':')) [
      | inl same ↦
          let e : c ≡ b':' = ground (arith, same) in
          rw same (ap (λ t. b':' ∷ t) ih ∙ ap (λ d. d ∷ s) (sym e))
      | inr other ↦
          rw other (with_colons-cons c (split_colon s).0 (split_colon s).1 ∙ ap (λ t. c ∷ t) ih)
    ]

split_last_lem :
    (host part : Str) (parts : List Str)
    → let (h, p) = split_last host part parts in
      h ++ (b':' ∷ p) ≡ host ++ (b':' ∷ with_colons part parts)
unfolding split_last
split_last_lem host part [] = refl
split_last_lem host part (next ∷ parts) =
    split_last_lem (host ++ (b':' ∷ part)) next parts ∙ append_assoc host (b':' ∷ part) _

abbrev pub NoColon : Str → Type 0
NoColon = All (λ c. (c == b':') ≡ false)

split_colon-NoColon :
    (s : Str) → let (part, parts) = split_colon s in NoColon part × All NoColon parts
unfolding split_colon
split_colon-NoColon [] = (tt, tt)
split_colon-NoColon (c ∷ s) =
    let (p, ps) = split_colon-NoColon s in
    elim (Bool-cases (c == b':')) [
      | inl same ↦ rw same (tt, (p, ps))
      | inr other ↦ rw other ((other, p), ps)
    ]

split_last-NoColon :
    (host part : Str) (parts : List Str)
    → NoColon part
    → All NoColon parts
    → NoColon (split_last host part parts).1
unfolding split_last
split_last-NoColon host part [] p ps = p
split_last-NoColon host part (next ∷ parts) p (q, ps) =
    split_last-NoColon (host ++ (b':' ∷ part)) next parts q ps

-- The parts at the last colon: an address without one is all host.
abbrev pub Rejoins : Str → Str × Str → Type 0
Rejoins addr (host, port) =
    ((host ≡ addr) × (port ≡ []) × NoColon addr) ⊎ ((host ++ (b':' ∷ port) ≡ addr) × NoColon port)

host_port_of-Rejoins :
    (part : Str) (parts : List Str)
    → NoColon part
    → All NoColon parts
    → Rejoins (with_colons part parts) (host_port_of (part, parts))
host_port_of-Rejoins part [] p ps = inl (refl, refl, p)
host_port_of-Rejoins part (next ∷ parts) p (q, ps) =
    inr (split_last_lem part next parts, split_last-NoColon part next parts q ps)

-- The host and the port that a server registers are the parts of its address before and behind its
-- last colon; without a colon, the host is the address and the port is empty.
pub host_port-Rejoins : (addr : Str) → Rejoins addr (host_port addr)
unfolding host_port
host_port-Rejoins addr =
    let (p, ps) = split_colon-NoColon addr in
    subst (λ a. Rejoins a (host_port_of (split_colon addr))) (split_colon_lem addr)
      (host_port_of-Rejoins (split_colon addr).0 (split_colon addr).1 p ps)
