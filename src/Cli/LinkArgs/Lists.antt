-- ===== src/Cli/LinkArgs/Lists.antt =====
-- Comma-separated flag values (`splitCommaList` and `parseMetadataList` of
-- src/cli/link_command_args.cpp).
use url_shortener.Prelude.{
  ◌≡◌, refl, sym, ap, ◌∙◌, ◌↔◌, Bool, true, false, ◌&&◌, ◌||◌, not, Option, none, some, List, [],
  ◌∷◌, ◌++◌, arith, ◌==◌, if◌then◌else◌, is_empty, all, Bytes, Map, insert,
}
use url_shortener.Core.Text.{has_byte}
use url_shortener.Cli.Options.{Parsed, parsed, rejected, ◌>>=◌}
use url_shortener.Cli.LinkArgs.{
  tokens_of, split_comma_list, split_equals, has_equals, bad_list_entry, add_list_entry,
  add_list_entries, parse_metadata_list,
}

-- A comma and a token for each token.
unfoldable pub join_behind : List Bytes → Bytes
join_behind [] = []
join_behind (t ∷ ts) = b',' ∷ (t ++ join_behind ts)

-- The tokens with commas between them.
unfoldable pub join_commas : List Bytes → Bytes
unfolding join_behind
join_commas [] = []
join_commas (t ∷ ts) = t ++ join_behind ts

-- No token holds a comma.
abbrev pub is_token : Bytes → Bool
is_token t = not (has_byte b',' t)

tokens_of-join : (s : Bytes) → join_commas ((tokens_of s).0 ∷ (tokens_of s).1) ≡ s
unfolding tokens_of join_commas join_behind
tokens_of-join [] = refl
tokens_of-join (c ∷ s) = ground (arith, tokens_of-join s)

tokens_of-is_token :
    (s : Bytes) → (is_token (tokens_of s).0 ≡ true) × (all is_token (tokens_of s).1 ≡ true)
unfolding tokens_of has_byte
tokens_of-is_token [] = (refl, refl)
tokens_of-is_token (c ∷ s) = ground (arith, tokens_of-is_token s)

tokens_of-join_behind :
    (t : Bytes) (ts : List Bytes)
    → is_token t ≡ true
    → all is_token ts ≡ true
    → tokens_of (t ++ join_behind ts) ≡ (t, ts)
unfolding tokens_of join_behind has_byte
tokens_of-join_behind [] [] h k = refl
tokens_of-join_behind [] (u ∷ us) h k =
    rw (tokens_of-join_behind u us (ground arith) (ground arith)) refl
tokens_of-join_behind (c ∷ t) ts h k =
    let other : (c == b',') ≡ false = ground arith in
    let rest : tokens_of (t ++ join_behind ts) ≡ (t, ts) =
      tokens_of-join_behind t ts (ground arith) k in
    rw (other, rest) refl

join_commas-split_comma_list :
    (value : Bytes)
    → (all is_token (split_comma_list value) ≡ true)
      × (join_commas (split_comma_list value) ≡ value)
unfolding split_comma_list join_commas
join_commas-split_comma_list [] = (refl, refl)
join_commas-split_comma_list (c ∷ s) =
    (ground (arith, tokens_of-is_token (c ∷ s)), tokens_of-join (c ∷ s))

split_comma_list-join_commas :
    (value : Bytes) (ts : List Bytes)
    → is_empty value ≡ false
    → all is_token ts ≡ true
    → join_commas ts ≡ value
    → split_comma_list value ≡ ts
unfolding split_comma_list join_commas
split_comma_list-join_commas value [] n h e = ground arith
split_comma_list-join_commas [] (t ∷ ts) n h e = cc
split_comma_list-join_commas (c ∷ s) (t ∷ ts) n h e =
    ap (λ (r : Bytes × List Bytes). r.0 ∷ r.1)
      (ap tokens_of (sym e) ∙ tokens_of-join_behind t ts (ground arith) (ground arith))

-- The tokens of a value that is not empty are the one list of comma-free texts that gives the
-- value with a comma between each two.
pub split_comma_list_iff :
    (value : Bytes) (ts : List Bytes)
    → is_empty value ≡ false
    → (split_comma_list value ≡ ts) ↔ ((all is_token ts ≡ true) × (join_commas ts ≡ value))
split_comma_list_iff value ts n =
    let (tokens, back) = join_commas-split_comma_list value in
    (λ e. (rw (← e) tokens, rw (← e) back), λ (h, k). split_comma_list-join_commas value ts n h k)

-- `KEY=VALUE` with one `=` and a key.
unfoldable pub is_entry : Bytes → Bool
unfolding split_equals has_equals
is_entry entry = elim (split_equals entry) [
  | none ↦ false
  | some (key, value) ↦ not (is_empty key || has_equals value)
]

abbrev pub is_parsed : {A : Type 0} → Parsed A → Bool
is_parsed (parsed x) = true
is_parsed (rejected e) = false

add_list_entry-accepts :
    (entry : Bytes) (m : Map Bytes) → is_parsed (add_list_entry entry m) ≡ is_entry entry
unfolding add_list_entry is_entry bad_list_entry
add_list_entry-accepts entry m = by_parts (split_equals entry)
  where
    by_parts :
        (o : Option (Bytes × Bytes))
        → is_parsed (elim o [
          | none ↦ bad_list_entry entry
          | some (key, value) ↦
              if is_empty key || has_equals value
              then bad_list_entry entry
              else parsed (insert key value m)
        ])
          ≡ elim o [ none ↦ false | some (key, value) ↦ not (is_empty key || has_equals value) ]
    by_parts none = refl
    by_parts (some (key, value)) = ground arith

add_list_entries-accepts :
    (entries : List Bytes) (m : Map Bytes)
    → is_parsed (add_list_entries entries m) ≡ all is_entry entries
unfolding add_list_entries
add_list_entries-accepts [] m = refl
add_list_entries-accepts (e ∷ es) m =
    behind (add_list_entry e m) (add_list_entry-accepts e m)
      (λ (added : Map Bytes). add_list_entries-accepts es added)
  where
    behind :
        (r : Parsed (Map Bytes))
        → is_parsed r ≡ is_entry e
        → ((added : Map Bytes) → is_parsed (add_list_entries es added) ≡ all is_entry es)
        → is_parsed (r >>= add_list_entries es) ≡ (is_entry e && all is_entry es)
    behind (parsed added) h rest = rw (← h) (rest added)
    behind (rejected text) h rest = rw (← h) refl

-- A `--metadata` value of `link update` is accepted exactly when every text between its commas is
-- a key that is not empty, one `=`, and a value.
pub parse_metadata_list-accepts :
    (value : Bytes) → is_parsed (parse_metadata_list value) ≡ all is_entry (split_comma_list value)
unfolding parse_metadata_list
parse_metadata_list-accepts value = add_list_entries-accepts (split_comma_list value) []
