-- ===== src/TestBench/Topology/Read.antt =====
-- `node.UnmarshalJSON` in gossip/internal/testutils/cfg.go, and what `NewGraphFromJSON` reads of the
-- nodes.
--
-- Which texts `json.Unmarshal` takes for an unsigned integer is a parameter. For a type with a method
-- `UnmarshalJSON` it calls this method, so the second call in the method is one of itself; the calls
-- run on fuel. The receiver is a copy.
use whisper2peer.Base.{
  ℕ, zero, suc, ◌≡◌, refl, ap, ◌∙◌, Bool, true, false, Option, none, some, List, [], ◌∷◌, map,
  Bytes, ◌&&◌, if◌then◌else◌, arith,
}
use whisper2peer.TestBench.Topology.{NodeConfig}

-- What the node holds behind the call, `none` where the fuel does not suffice.
unfoldable pub unmarshal_json : ℕ → (Bytes → Bool) → Bytes → NodeConfig → Option NodeConfig
unmarshal_json zero is_uint text n = none
unmarshal_json (suc fuel) is_uint text n =
    let again = unmarshal_json fuel is_uint text n in
    if is_uint text then some n else elim again [ none ↦ none | some _ ↦ some n ]

abbrev pub unset : NodeConfig
unset = record { degree = none; cache_size = none; gossip_timer = none }

abbrev pub before : Option NodeConfig → Option (List NodeConfig) → Option (List NodeConfig)
before none ns = none
before (some n) none = none
before (some n) (some ns) = some (n ∷ ns)

-- The nodes of a graph: each begins with nothing set.
unfoldable pub read_nodes : ℕ → (Bytes → Bool) → List Bytes → Option (List NodeConfig)
read_nodes fuel is_uint [] = some []
read_nodes fuel is_uint (text ∷ texts) =
    before (unmarshal_json fuel is_uint text unset) (read_nodes fuel is_uint texts)

none_again :
    (n : NodeConfig) (o : Option NodeConfig)
    → o ≡ none
    → (elim o as (λ _. Option NodeConfig) [ none ↦ none | some _ ↦ some n ]) ≡ none
none_again n none e = refl
none_again n (some m) e = absurd (ground (arith, e))

unmarshal_json-fuel :
    (fuel : ℕ) (is_uint : Bytes → Bool) (text : Bytes) (n : NodeConfig) (b : Bool)
    → is_uint text ≡ b
    → unmarshal_json (suc fuel) is_uint text n ≡ (if b then some n else none)
unfolding unmarshal_json
unmarshal_json-fuel fuel is_uint text n true e = rw e refl
unmarshal_json-fuel zero is_uint text n false e = rw e refl
unmarshal_json-fuel (suc fuel) is_uint text n false e =
    let again = unmarshal_json-fuel fuel is_uint text n false e in
    ap
      (λ b.
        if b
        then some n
        else elim (unmarshal_json (suc fuel) is_uint text n) as (λ _. Option NodeConfig) [
          | none ↦ none
          | some _ ↦ some n
        ])
      e
    ∙ none_again n (unmarshal_json (suc fuel) is_uint text n) again

abbrev all_uint : (Bytes → Bool) → List Bytes → Bool
all_uint is_uint [] = true
all_uint is_uint (text ∷ texts) = is_uint text && all_uint is_uint texts

before-if :
    (a b : Bool) (n : NodeConfig) (ns : List NodeConfig)
    → before (if a then some n else none) (if b then some ns else none)
      ≡ (if a && b then some (n ∷ ns) else none)
before-if true true n ns = refl
before-if true false n ns = refl
before-if false b n ns = refl

-- The calls end exactly where each node is an integer, and then no node has anything set.
read_nodes-all_uint :
    (fuel : ℕ) (is_uint : Bytes → Bool) (texts : List Bytes)
    → read_nodes (suc fuel) is_uint texts
      ≡ (if all_uint is_uint texts then some (map (λ _. unset) texts) else none)
unfolding read_nodes
read_nodes-all_uint fuel is_uint [] = refl
read_nodes-all_uint fuel is_uint (text ∷ texts) =
    ap (λ o. before o (read_nodes (suc fuel) is_uint texts))
      (unmarshal_json-fuel fuel is_uint text unset (is_uint text) refl)
    ∙ ap (before (if is_uint text then some unset else none))
        (read_nodes-all_uint fuel is_uint texts)
    ∙ before-if (is_uint text) (all_uint is_uint texts) unset (map (λ _. unset) texts)
