-- ===== src/Requests/Headers.antt =====
-- newHttpResponse of script/request/https.go: the headers that a script sees.
use egvm.Prelude.{
  ℕ, ◌≡◌, ◌≢◌, refl, sym, ap, ◌∙◌, true, false, Bool-cases, some, List, [], ◌∷◌, map, inl, inr,
  if◌then◌else◌,
}
use egvm.Bytes.{
  Bytes, equal_bytes, equal_bytes_sound, is_less, is_less_trans, is_less_asymm, is_less_connex,
}
use egvm.Requests.{insert_string, sort_strings, values_of, header_pairs, new_http_response}

-- Two orders in which a traversal can meet the entries of one map: neighbours with different keys
-- change places.
pub data Reordered : List (Bytes × List Bytes) → List (Bytes × List Bytes) → Type 0 where
  same : {h : List (Bytes × List Bytes)} → Reordered h h
  swapped :
      {k k' : Bytes} {vs vs' : List Bytes} {h : List (Bytes × List Bytes)}
      → k ≢ k'
      → Reordered ((k, vs) ∷ (k', vs') ∷ h) ((k', vs') ∷ (k, vs) ∷ h)
  behind :
      {k : Bytes} {vs : List Bytes} {h h' : List (Bytes × List Bytes)}
      → Reordered h h'
      → Reordered ((k, vs) ∷ h) ((k, vs) ∷ h')
  both :
      {h h' h'' : List (Bytes × List Bytes)} → Reordered h h' → Reordered h' h'' → Reordered h h''

-- Not less than, and then less.
mixed : (j a b : Bytes) → is_less j b ≡ false → is_less j a ≡ true → is_less b a ≡ true
mixed j a b p q = elim (Bool-cases (is_less b j)) [
  | inl below ↦ is_less_trans b j a below q
  | inr above ↦ ap (λ x. is_less x a) (sym (is_less_connex j b p above)) ∙ q
]

front_comm :
    (a b : Bytes) (ks : List Bytes)
    → (if is_less b a then b ∷ a ∷ ks else a ∷ b ∷ ks)
      ≡ (if is_less a b then a ∷ b ∷ ks else b ∷ a ∷ ks)
front_comm a b ks = elim (Bool-cases (is_less b a)) [
  | inl below ↦ rw (below, is_less_asymm b a below) refl
  | inr above ↦ elim (Bool-cases (is_less a b)) [
    | inl less ↦ rw (above, less) refl
    | inr equal ↦
        rw (above, equal)
          (ap (λ x. x ∷ b ∷ ks) (is_less_connex a b equal above)
            ∙ ap (λ x. b ∷ x ∷ ks) (sym (is_less_connex a b equal above)))
  ]
]

insert_front :
    (a j : Bytes) (ks : List Bytes) → is_less j a ≡ false → insert_string a (j ∷ ks) ≡ a ∷ j ∷ ks
unfolding insert_string
insert_front a j ks h = rw h refl

insert_behind :
    (a j : Bytes) (ks : List Bytes)
    → is_less j a ≡ true
    → insert_string a (j ∷ ks) ≡ j ∷ insert_string a ks
unfolding insert_string
insert_behind a j ks h = rw h refl

-- Where a goes behind j and b does not, b is in front of both.
insert_between :
    (a b j : Bytes) (ks : List Bytes)
    → is_less j a ≡ true
    → is_less j b ≡ false
    → insert_string a (insert_string b (j ∷ ks)) ≡ insert_string b (insert_string a (j ∷ ks))
insert_between a b j ks p q =
    rw (insert_front b j ks q, insert_behind a j ks p)
      (rw (insert_behind a b (j ∷ ks) (mixed j a b q p), insert_front b j (insert_string a ks) q)
        (ap (λ r. b ∷ r) (insert_behind a j ks p)))

insert_both_behind :
    (a b j : Bytes) (ks : List Bytes)
    → is_less j a ≡ true
    → is_less j b ≡ true
    → insert_string a (insert_string b (j ∷ ks)) ≡ j ∷ insert_string a (insert_string b ks)
insert_both_behind a b j ks p q =
    ap (insert_string a) (insert_behind b j ks q) ∙ insert_behind a j (insert_string b ks) p

insert_both_front :
    (a b j : Bytes) (ks : List Bytes)
    → is_less j a ≡ false
    → is_less j b ≡ false
    → insert_string a (insert_string b (j ∷ ks))
      ≡ (if is_less b a then b ∷ a ∷ j ∷ ks else a ∷ b ∷ j ∷ ks)
unfolding insert_string
insert_both_front a b j ks p q = rw (q, p) refl

insert_nil_comm :
    (a b : Bytes) → insert_string a (insert_string b []) ≡ insert_string b (insert_string a [])
unfolding insert_string
insert_nil_comm a b = front_comm a b []

insert_comm :
    (a b : Bytes) (ks : List Bytes)
    → insert_string a (insert_string b ks) ≡ insert_string b (insert_string a ks)
insert_comm a b [] = insert_nil_comm a b
insert_comm a b (j ∷ ks) = elim (Bool-cases (is_less j a)) [
  | inl a_behind ↦ elim (Bool-cases (is_less j b)) [
    | inl b_behind ↦
        insert_both_behind a b j ks a_behind b_behind
        ∙ ap (λ r. j ∷ r) (insert_comm a b ks)
        ∙ sym (insert_both_behind b a j ks b_behind a_behind)
    | inr b_front ↦ insert_between a b j ks a_behind b_front
  ]
  | inr a_front ↦ elim (Bool-cases (is_less j b)) [
    | inl b_behind ↦ sym (insert_between b a j ks b_behind a_front)
    | inr b_front ↦
        insert_both_front a b j ks a_front b_front
        ∙ front_comm a b (j ∷ ks)
        ∙ sym (insert_both_front b a j ks b_front a_front)
  ]
]

values_of-reordered :
    {h h' : List (Bytes × List Bytes)}
    → Reordered h h'
    → (k : Bytes) → values_of h k ≡ values_of h' k
unfolding values_of
values_of-reordered same k = refl
values_of-reordered (swapped {k = a} {k' = b} {vs} {vs'} {h} distinct) k =
    elim (Bool-cases (equal_bytes a k)) [
      | inl is_a ↦ elim (Bool-cases (equal_bytes b k)) [
        | inl is_b ↦
            absurd (distinct (equal_bytes_sound a k is_a ∙ sym (equal_bytes_sound b k is_b)))
        | inr not_b ↦ rw (is_a, not_b) refl
      ]
      | inr not_a ↦ rw not_a refl
    ]
values_of-reordered (behind r) k = rw (values_of-reordered r k) refl
values_of-reordered (both r s) k = values_of-reordered r k ∙ values_of-reordered s k

header_pairs-reordered :
    {h h' : List (Bytes × List Bytes)} (ks : List Bytes)
    → Reordered h h'
    → header_pairs h ks ≡ header_pairs h' ks
unfolding header_pairs
header_pairs-reordered [] r = refl
header_pairs-reordered (k ∷ ks) r = rw (values_of-reordered r k, header_pairs-reordered ks r) refl

abbrev keys_of : List (Bytes × List Bytes) → List Bytes
keys_of h = map (λ e. e.0) h

sort_strings-reordered :
    {h h' : List (Bytes × List Bytes)}
    → Reordered h h'
    → sort_strings (keys_of h) ≡ sort_strings (keys_of h')
unfolding sort_strings
sort_strings-reordered same = refl
sort_strings-reordered (swapped {k} {k'} {h} distinct) = insert_comm k k' (sort_strings (keys_of h))
sort_strings-reordered (behind {k} r) = ap (insert_string k) (sort_strings-reordered r)
sort_strings-reordered (both r s) = sort_strings-reordered r ∙ sort_strings-reordered s

-- The response that a script gets does not depend on the order in which the headers of the map are
-- met: newHttpResponse sorts them.
pub new_http_response-Reordered :
    (status body : Bytes) (code : ℕ) (h h' : List (Bytes × List Bytes))
    → Reordered h h'
    → new_http_response
        (record { status = status; status_code = code; header = h; body = some body })
      ≡ new_http_response
          (record { status = status; status_code = code; header = h'; body = some body })
unfolding new_http_response
new_http_response-Reordered status body code h h' r =
    ap
      (λ pairs. some (record { status = status; status_code = code; headers = pairs; body = body }))
      (ap (header_pairs h) (sort_strings-reordered r)
        ∙ header_pairs-reordered (sort_strings (keys_of h')) r)
