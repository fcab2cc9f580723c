-- ===== src/Core/Json/Tokens/Arrays.antt =====
-- Arrays of strings read back, and the fuel of the loop (src/core/utils.cpp:
-- extractJsonStringArrayField).
use url_shortener.Prelude.{
  ℕ, zero, suc, ◌+◌, ◌≤◌, ◌<◌, ◌≡◌, refl, ap, Bool, true, false, Option, some, List, [], ◌∷◌, ◌++◌,
  map, append_assoc, arith, ==_refl, length, length-append, Bytes,
}
use url_shortener.Core.Text.{drop_last, last_is}
use url_shortener.Core.Json.{json_escape, json_string, skip_spaces}
use url_shortener.Core.Json.Strings.{read_back}
use url_shortener.Core.Json.Tokens.{
  read_element, next_elements, first_element, read_elements, array_of_token,
}

length-skip_spaces : (s : Bytes) → length (skip_spaces s) ≤ length s
unfolding skip_spaces
length-skip_spaces [] = omega arith
length-skip_spaces (c ∷ s) = ground (arith, length-skip_spaces s)

length-read_element : (e : Bool) (s : Bytes) → length (read_element e s).1 ≤ length s
unfolding read_element
length-read_element e [] = omega arith
length-read_element true (c ∷ s) = omega (arith, length-read_element false s)
length-read_element false (c ∷ s) =
    ground (arith, length-read_element false s, length-read_element true s)

next_elements-cong :
    (m n : Bytes → Option (List Bytes)) (v t : Bytes)
    → ((r : Bytes) → length r < length t → m r ≡ n r)
    → next_elements m v t ≡ next_elements n v t
unfolding next_elements
next_elements-cong m n v [] h = refl
next_elements-cong m n v (d ∷ s) h = rw (h s (omega arith))

first_element-cong :
    (m n : Bytes → Option (List Bytes)) (t : Bytes)
    → ((r : Bytes) → length r < length t → m r ≡ n r)
    → first_element m t ≡ first_element n t
unfolding first_element
first_element-cong m n [] h = refl
first_element-cong m n (c ∷ s) h =
    let (v, rest) = read_element false s in
    let short : length (skip_spaces rest) ≤ length s =
      omega (arith, length-skip_spaces rest, length-read_element false s) in
    rw (next_elements-cong m n v (skip_spaces rest) (λ r k. h r (omega arith)))

-- `none` is never for want of fuel: with more fuel than bytes, the amount does not matter.
pub read_elements-fuel :
    (f g : ℕ) (s : Bytes) → length s < f → length s < g → read_elements f s ≡ read_elements g s
unfolding read_elements
read_elements-fuel zero g s h k = absurd (omega arith)
read_elements-fuel (suc f) zero s h k = absurd (omega arith)
read_elements-fuel (suc f) (suc g) s h k =
    let short = length-skip_spaces s in
    first_element-cong (read_elements f) (read_elements g) (skip_spaces s)
      (λ r l. read_elements-fuel f g r (omega arith) (omega arith))

-- The elements as they are written between the brackets.
unfoldable pub print_elements : List Bytes → Bytes
print_elements [] = []
print_elements (v ∷ []) = json_string v
print_elements (v ∷ w ∷ vs) = json_string v ++ b',' ∷ print_elements (w ∷ vs)

read_element-json_escape :
    (s rest : Bytes) → read_element false (json_escape s ++ 34 ∷ rest) ≡ (map read_back s, rest)
unfolding read_element json_escape read_back
read_element-json_escape [] rest = refl
read_element-json_escape (c ∷ s) rest = ground (arith, read_element-json_escape s rest)

read_elements-print_elements :
    (f : ℕ) (vs : List Bytes)
    → length vs < f
    → read_elements f (print_elements vs) ≡ some (map (map read_back) vs)
unfolding read_elements first_element next_elements skip_spaces print_elements json_string
read_elements-print_elements zero vs h = absurd (omega arith)
read_elements-print_elements (suc f) [] h = refl
read_elements-print_elements (suc f) (v ∷ []) h = rw (read_element-json_escape v [])
read_elements-print_elements (suc f) (v ∷ w ∷ vs) h = rw (
  append_assoc (json_escape v) (34 ∷ []) (b',' ∷ print_elements (w ∷ vs)),
  read_element-json_escape v (b',' ∷ print_elements (w ∷ vs)),
  read_elements-print_elements f (w ∷ vs) (omega arith),
)

drop_last-append : (s : Bytes) (c : ℕ) → drop_last (s ++ c ∷ []) ≡ s
unfolding drop_last
drop_last-append [] c = refl
drop_last-append (d ∷ []) c = refl
drop_last-append (d ∷ e ∷ s) c = ap (λ t. d ∷ t) (drop_last-append (e ∷ s) c)

last_is-append : (s : Bytes) (c : ℕ) → last_is c (s ++ c ∷ []) ≡ true
unfolding last_is
last_is-append [] c = ==_refl c
last_is-append (d ∷ []) c = ==_refl c
last_is-append (d ∷ e ∷ s) c = last_is-append (e ∷ s) c

length-print_elements : (vs : List Bytes) → length vs ≤ length (print_elements vs)
unfolding print_elements json_string
length-print_elements [] = omega arith
length-print_elements (v ∷ []) = omega arith
length-print_elements (v ∷ w ∷ vs) = omega (
  arith,
  length-print_elements (w ∷ vs),
  length-append {0} (json_string v) (b',' ∷ print_elements (w ∷ vs)),
)

-- An array written with its strings escaped and separated by commas is read back as its list of
-- strings, each as `jsonString` and the reader make it.
pub array_of_token-print_elements :
    (vs : List Bytes)
    → array_of_token (b'[' ∷ (print_elements vs ++ b']' ∷ [])) ≡ some (map (map read_back) vs)
unfolding array_of_token
array_of_token-print_elements vs =
    let s = print_elements vs in
    let l : length (s ++ b']' ∷ []) ≡ length s + 1 = length-append s (b']' ∷ []) in
    rw (last_is-append s b']', drop_last-append s b']', l)
      (ground (
        arith,
        read_elements-print_elements (suc (length s + 1)) vs
            (omega (arith, length-print_elements vs)),
      ))
