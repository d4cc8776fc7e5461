-- ===== src/Loader/Resolved.antt =====
-- Which key a name of src/core/settings/json_config_loader.cpp stands for once `parseKeyDefinition`
-- has added a key: the search by name is not by the key that was added.
use yamy.Base.{
  ℕ, zero, suc, ◌%◌, ◌≤◌, ◌<◌, ◌≡◌, refl, ap, ◌∙◌, true, Option, none, some, List, ◌∷◌, arith,
  find_if, any, ◌≢◌, subst, ==_self, ==_ne,
}
use native.Mathlib.Decide.{dec_lt}
use yamy.Texts.{Text, same_name_self, find_text, find-put_self}
use yamy.Keyboard.{hash}
use yamy.Loader.Keys.{
  NamedKey, KeyTable, Loading, is_called, search_below, search_non_alias, find_alias,
  search_key_by_name, new_key, add_named, define_key,
}

-- The key that is found first, or else this one.
abbrev pub or_key : Option NamedKey → NamedKey → NamedKey
or_key none k = k
or_key (some other) k = other

other_bucket :
    (n : ℕ) (k : NamedKey) (kb : KeyTable)
    → hash k.key ≢ n
    → (add_named k kb).buckets n ≡ kb.buckets n
unfolding add_named
other_bucket n k kb h = rw (==_ne (hash k.key) n h)

own_bucket :
    (k : NamedKey) (kb : KeyTable)
    → (add_named k kb).buckets (hash k.key) ≡ k ∷ kb.buckets (hash k.key)
unfolding add_named
own_bucket k kb = rw (==_self (hash k.key))

-- One round of the search.
abbrev round : Text → Option NamedKey → List NamedKey → Option NamedKey
round name o keys = elim o [ none ↦ find_if (is_called name) keys | some k ↦ some k ]

search_below-before :
    (n : ℕ) (k : NamedKey) (kb : KeyTable) (name : Text)
    → n ≤ hash k.key
    → search_below n (add_named k kb).buckets name ≡ search_below n kb.buckets name
unfolding search_below
search_below-before zero k kb name h = refl
search_below-before (suc n) k kb name h =
    ap (λ o. round name o ((add_named k kb).buckets n))
      (search_below-before n k kb name (omega arith))
    ∙ ap (round name (search_below n kb.buckets name)) (other_bucket n k kb (omega arith))

first_of_own :
    (k : NamedKey) (rest : List NamedKey) (name : Text) (o : Option NamedKey)
    → is_called name k ≡ true
    → ◌≡◌ {A = Option NamedKey}
        (elim o [ none ↦ find_if (is_called name) (k ∷ rest) | some other ↦ some other ])
        (some (or_key o k))
unfolding find_if
first_of_own k rest name none c = rw (c, find_if)
first_of_own k rest name (some other) c = refl

search_below-own :
    (k : NamedKey) (kb : KeyTable) (name : Text)
    → is_called name k ≡ true
    → search_below (suc (hash k.key)) (add_named k kb).buckets name
      ≡ some (or_key (search_below (hash k.key) kb.buckets name) k)
unfolding search_below
search_below-own k kb name c =
    let o = search_below (hash k.key) kb.buckets name in
    ap (λ o'. round name o' ((add_named k kb).buckets (hash k.key)))
      (search_below-before (hash k.key) k kb name (omega arith))
    ∙ ap (round name o) (own_bucket k kb)
    ∙ first_of_own k (kb.buckets (hash k.key)) name o c

search_below-after :
    (n : ℕ) (k : NamedKey) (kb : KeyTable) (name : Text)
    → hash k.key < n
    → is_called name k ≡ true
    → search_below n (add_named k kb).buckets name
      ≡ some (or_key (search_below (hash k.key) kb.buckets name) k)
unfolding search_below
search_below-after zero k kb name h c = elim h [ ]
search_below-after (suc n) k kb name h c = elim (dec_lt (hash k.key) n) [
  | yes lt ↦ rw (search_below-after n k kb name lt c)
  | no ge ↦
      let e : hash k.key ≡ n = omega arith in
      subst
        (λ m.
          search_below (suc m) (add_named k kb).buckets name
          ≡ some (or_key (search_below (hash k.key) kb.buckets name) k))
        e (search_below-own k kb name c)
]

new_key-called :
    (number : ℕ) (name : Text) (code : ℕ) → is_called name (new_key number name code) ≡ true
unfolding is_called new_key any
new_key-called number name code = rw (same_name_self name)

search-add_named :
    (name : Text) (code : ℕ) (kb : KeyTable)
    → find_alias name kb.aliases ≡ none
    → search_key_by_name (add_named (new_key kb.next name code) kb) name
      ≡ some (or_key (search_below (code % 128) kb.buckets name) (new_key kb.next name code))
unfolding search_key_by_name search_non_alias new_key add_named
search-add_named name code kb h =
    let k = new_key kb.next name code in
    rw (h, search_key_by_name)
      (search_below-after 128 k kb name (omega arith) (new_key-called kb.next name code))

-- Which key a definition is for. If no alias has the name, then `parseKeyDefinition` adds the new key
-- to its bucket and succeeds, but what the name stands for from then on is the first key in the
-- buckets in front of that one that has this name, case aside, and the new key only where no such
-- key is there.
pub define_key_lem :
    (name : Text) (code : ℕ) (s : Loading)
    → find_alias name s.keyboard.aliases ≡ none
    → ((define_key name code s).0 ≡ true)
      × ((define_key name code s).1.keyboard
          ≡ add_named (new_key s.keyboard.next name code) s.keyboard)
      × (find_text name (define_key name code s).1.key_lookup
          ≡ some (
              or_key
                (search_below (code % 128) s.keyboard.buckets name)
                (new_key s.keyboard.next name code)))
unfolding define_key
define_key_lem name code s h =
    let k = new_key s.keyboard.next name code in
    let e : search_key_by_name (add_named k s.keyboard) name
        ≡ some (or_key (search_below (code % 128) s.keyboard.buckets name) k) =
      search-add_named name code s.keyboard h in
    (rw (e, define_key), rw (e, define_key), rw (e, define_key) (find-put_self name _ s.key_lookup))
