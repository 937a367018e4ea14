-- ===== src/Parser/Enumerate.antt =====
-- The loops of the parser against the lists that the enumerator delivers.
use dse_network.Prelude.{
  ℕ, zero, suc, String, ◌<◌, ◌≡◌, ◌∙◌, refl, ap, none, some, List, [], ◌∷◌, map, Outcome, ok,
  length, arith, goes_on, deref_there, All,
}
use dse_network.Types.{NetworkMessage}
use dse_network.Parser.{
  Yaml, NamedNode, object_generator, parse_objects, parse_signal, parse_signals, parse_function,
  parse_functions, message_of, parse_message, parse_messages,
}

module _ (y : Yaml) (strtoul : String → ℕ) where
  open y use {YamlNode, get_scalar, enumerator, hashmap_set}

  -- From `index` on, the enumerator delivers these objects, one after the other, and then NULL.
  abbrev pub Enumerates : YamlNode → String → String → ℕ → List (NamedNode YamlNode) → Type 0
  Enumerates node path key index [] =
      (enumerator node path index (object_generator y strtoul key)).0 ≡ none
  Enumerates node path key index (o ∷ objects) =
      let step = enumerator node path index (object_generator y strtoul key) in
      (step.0 ≡ some o) × Enumerates node path key step.1 objects

  -- With more fuel than there are objects a loop whose body succeeds parses each of them, in order.
  parse_objects_lem :
      {A : Type 0} (fuel : ℕ) (node : YamlNode) (path key : String)
      (parse : NamedNode YamlNode → Outcome A) (result : NamedNode YamlNode → A) (index : ℕ)
      (objects : List (NamedNode YamlNode))
      → All (λ o. parse o ≡ ok (result o)) objects
      → Enumerates node path key index objects
      → length objects < fuel
      → parse_objects y strtoul fuel node path key parse index ≡ ok (map result objects)
  unfolding parse_objects
  parse_objects_lem zero node path key parse result index objects runs listed fits =
      absurd (omega arith)
  parse_objects_lem (suc fuel) node path key parse result index [] runs listed fits =
      rw (listed, parse_objects) refl
  parse_objects_lem (suc fuel) node path key parse result index (o ∷ objects) runs listed fits =
      let step = enumerator node path index (object_generator y strtoul key) in
      rw
        (
          listed.0,
          parse_objects,
          runs.0,
          parse_objects_lem fuel node path key parse result step.1 objects runs.1 listed.1
              (omega arith),
        )
        refl

  All-refl :
      {A B : Type 0} (f : A → B) (xs : List A)
      → All (λ (x : A). Path (Outcome B) (ok (f x)) (ok (f x))) xs
  All-refl f [] = tt
  All-refl f (x ∷ xs) = (refl, All-refl f xs)

  -- What the documents hold for each message: its signals and its functions.
  module _ (signals encode decode : YamlNode → List (NamedNode YamlNode))
      (all_signals : (n : YamlNode) → Enumerates n "signals" "signal" 0 (signals n))
      (all_encode : (n : YamlNode) → Enumerates n "functions/encode" "function" 0 (encode n))
      (all_decode : (n : YamlNode) → Enumerates n "functions/decode" "function" 0 (decode n)) where
    -- The message that an object of the document stands for.
    abbrev pub message_at : NamedNode YamlNode → NetworkMessage
    message_at o =
        message_of y strtoul o.node o.name (map (parse_signal y strtoul) (signals o.node))
          (map (parse_function y strtoul) (encode o.node))
          (map (parse_function y strtoul) (decode o.node))

    -- An object of the array has the name that the generator found, a frame id, and signals and
    -- functions that the fuel is enough for.
    pub record IsComplete (fuel : ℕ) (o : NamedNode YamlNode) : Type 0 where
      pub named : get_scalar o.node "message" ≡ some o.name
      pub frame_id : String
      pub framed : get_scalar o.node "annotations/frame_id" ≡ some frame_id
      pub few_signals : length (signals o.node) < fuel
      pub few_encode : length (encode o.node) < fuel
      pub few_decode : length (decode o.node) < fuel

    module _ (sets : (key : String) → (k : ℕ) × (hashmap_set (some key) ≡ ok k)) where
      parse_message_lem :
          (fuel : ℕ) (o : NamedNode YamlNode)
          → IsComplete fuel o
          → parse_message y strtoul fuel o ≡ ok (message_at o)
      unfolding parse_message parse_signals parse_functions
      parse_message_lem fuel o c =
          let (k, set) = sets c.frame_id in
          goes_on _ (deref_there c.named) (
            goes_on _
              (parse_objects_lem fuel o.node "signals" "signal" (λ x. ok (parse_signal y strtoul x))
                (parse_signal y strtoul) 0 (signals o.node) (All-refl _ _) (all_signals o.node)
                c.few_signals)
              (goes_on _
                (parse_objects_lem fuel o.node "functions/encode" "function"
                  (λ x. ok (parse_function y strtoul x)) (parse_function y strtoul) 0
                  (encode o.node) (All-refl _ _) (all_encode o.node) c.few_encode)
                (goes_on _
                  (parse_objects_lem fuel o.node "functions/decode" "function"
                    (λ x. ok (parse_function y strtoul x)) (parse_function y strtoul) 0
                    (decode o.node) (All-refl _ _) (all_decode o.node) c.few_decode)
                  (goes_on _ (ap hashmap_set c.framed ∙ set) refl))))

      -- Where the enumerator delivers the messages of a document and, for each, its signals and
      -- functions, where each message has its name and a frame id, where `hashmap_set` returns for
      -- each key that is not NULL, and where the fuel is above the length of each list, parsing
      -- succeeds: the messages are those of all the objects, in order, each with its own members,
      -- signals and functions.
      pub parse_messages_lem :
          (fuel : ℕ) (doc : YamlNode) (messages : List (NamedNode YamlNode))
          → Enumerates doc "spec/messages" "message" 0 messages
          → length messages < fuel
          → All (IsComplete fuel) messages
          → parse_messages y strtoul fuel doc ≡ ok (map message_at messages)
      unfolding parse_messages
      parse_messages_lem fuel doc messages listed fits complete =
          parse_objects_lem fuel doc "spec/messages" "message" (parse_message y strtoul fuel)
            message_at 0 messages (each messages complete) listed fits
        where
          each :
              (os : List (NamedNode YamlNode))
              → All (IsComplete fuel) os
              → All (λ o. parse_message y strtoul fuel o ≡ ok (message_at o)) os
          each [] c = tt
          each (o ∷ os) c = (parse_message_lem fuel o c.0, each os c.1)
