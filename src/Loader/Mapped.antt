-- ===== src/Loader/Mapped.antt =====
-- Where a mapping of src/core/settings/json_config_loader.cpp ends up: in the global keymap, with its
-- key sequence in the setting.
use yamy.Base.{
  ℕ, ◌%◌, ◌≡◌, ap, ◌∙◌, true, Option, none, some, List, [], ◌∷◌, arith, ◌≢◌, find_if, ◌==◌, ==_self,
  if◌then◌else◌,
}
use yamy.ModifiedKey.{ModifiedKey}
use yamy.Keymap.{KeyAssignment, Assignments, reassign, exact, add_assignment, search_assignment}
use yamy.Keymap.Search.{search-add_assignment}
use yamy.Texts.{codes}
use yamy.Loader.Keys.{JsonReader, NamedKey, KeySequence, NamedKeymap, Loading, first_scan}
use yamy.Loader.Specs.{parse_modified_key, parse_to_field}
use yamy.Loader.Sections.{
  key_seq_name, new_seq, overwrite, add_key_seq, is_global, in_global, add_mapping,
  parse_single_mapping,
}

-- The assignments of the keymap that `searchByName("Global")` finds.
unfoldable pub global_of : List NamedKeymap → Option Assignments
global_of [] = none
global_of (m ∷ rest) =
    let behind = global_of rest in if is_global m then some m.assignments else behind

abbrev pub search_in_found : ℕ → ModifiedKey → Option Assignments → Option KeyAssignment
search_in_found scan wanted o = elim o [ none ↦ none | some m ↦ search_assignment m scan wanted ]

abbrev pub search_global : Loading → ℕ → ModifiedKey → Option KeyAssignment
search_global s scan wanted = search_in_found scan wanted (global_of s.keymaps)

global_of-in_global :
    (f : Assignments → Assignments) (l : List NamedKeymap) (m : Assignments)
    → global_of l ≡ some m
    → global_of (in_global f l) ≡ some (f m)
unfolding global_of in_global is_global
global_of-in_global f [] m h = cc
global_of-in_global f (x ∷ rest) m h = ground (arith, global_of-in_global f rest m)

-- The sequence with this number.
unfoldable pub seq_numbered : ℕ → List KeySequence → Option KeySequence
seq_numbered number l = find_if (λ ks. ks.number == number) l

module _ (s : Loading) (mk : ModifiedKey) (k : NamedKey) (seq : KeySequence) (m : Assignments)
    (fresh : overwrite seq s.key_seqs ≡ none) (found : global_of s.keymaps ≡ some m) where
  new_seqs : (add_mapping mk k seq s).key_seqs ≡ seq ∷ s.key_seqs
  unfolding add_mapping add_key_seq
  new_seqs = rw (fresh, add_key_seq)

  new_global :
      global_of (add_mapping mk k seq s).keymaps
      ≡ some (add_assignment m (first_scan k) mk seq.number)
  unfolding add_mapping add_key_seq
  new_global =
      rw (fresh, add_key_seq)
        (global_of-in_global (λ a. add_assignment a (first_scan k) mk seq.number) s.keymaps m found)

  new_search :
      (scan : ℕ) (wanted : ModifiedKey)
      → search_global (add_mapping mk k seq s) scan wanted
        ≡ search_assignment (add_assignment m (first_scan k) mk seq.number) scan wanted
  new_search scan wanted = ap (search_in_found scan wanted) new_global

seq_numbered_front :
    (seq : KeySequence) (l : List KeySequence) → seq_numbered seq.number (seq ∷ l) ≡ some seq
unfolding seq_numbered find_if
seq_numbered_front seq l = rw (==_self seq.number, find_if)

-- A mapping that the loader accepts takes effect. Let a mapping be an object whose `from` and `to` are
-- read as a key with modifiers and as a key sequence, no sequence of the setting have the name of the
-- new one, and the global keymap have no assignment for exactly this key yet. Then the mapping is
-- accepted, whether or not the virtual modifiers of `from` are defined anywhere, the setting has the
-- new sequence, and a search of the global keymap finds it for every key that it matches exactly,
-- whatever other assignments match too, while a search in the other buckets finds what it found
-- before.
pub mapping_takes_effect :
    (r : JsonReader) (mapping from to : r.Json) (index : ℕ) (s : Loading) (mk : ModifiedKey)
    (k : NamedKey) (seq : KeySequence) (m : Assignments) (wanted : ModifiedKey) (other : ℕ)
    → r.is_object mapping ≡ true
    → r.member mapping (codes "from") ≡ some from
    → r.is_string from ≡ true
    → parse_modified_key s.key_lookup (r.text from) ≡ some (mk, k)
    → r.member mapping (codes "to") ≡ some to
    → parse_to_field r s.key_lookup to (new_seq s.next_seq (key_seq_name index (r.text from)))
      ≡ some seq
    → overwrite seq s.key_seqs ≡ none
    → global_of s.keymaps ≡ some m
    → reassign mk seq.number (m.buckets (first_scan k % 32)) ≡ none
    → exact wanted (record { modified_key = mk; key_seq = seq.number }) ≡ true
    → other % 32 ≢ first_scan k % 32
    → ((parse_single_mapping r mapping index s).0 ≡ true)
      × (seq_numbered seq.number (parse_single_mapping r mapping index s).1.key_seqs ≡ some seq)
      × (search_global (parse_single_mapping r mapping index s).1 (first_scan k) wanted
          ≡ some (record { modified_key = mk; key_seq = seq.number }))
      × (search_global (parse_single_mapping r mapping index s).1 other wanted
          ≡ search_assignment m other wanted)
unfolding parse_single_mapping seq_numbered find_if
mapping_takes_effect r mapping from to index s mk k seq m wanted other ob fr fs p te q ow g ra ex
      ne =
    let e : parse_single_mapping r mapping index s ≡ (true, add_mapping mk k seq s) =
      rw (ob, fr, fs, p, te, q) in
    let both = search-add_assignment m (first_scan k) mk seq.number wanted other ra ex ne in
    (
      ap (λ o. o.0) e,
      ap (λ o. seq_numbered seq.number o.1.key_seqs) e
          ∙ ap (seq_numbered seq.number) (new_seqs s mk k seq m ow g)
          ∙ seq_numbered_front seq s.key_seqs,
      ap (λ o. search_global o.1 (first_scan k) wanted) e
          ∙ new_search s mk k seq m ow g (first_scan k) wanted
          ∙ both.0,
      ap (λ o. search_global o.1 other wanted) e
          ∙ new_search s mk k seq m ow g other wanted
          ∙ both.1,
    )
