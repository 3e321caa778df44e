-- ===== src/Trace/State/Members.antt =====
-- One list member: what a valid key or value may hold, and that `parseMember` undoes `String`.
use opentelemetry_go.Prelude.{
  ℕ, ◌≡◌, refl, Bool, true, false, not, ◌||◌, [], ◌∷◌, ◌++◌, Option, none, some, arith, ◌==◌, Bytes,
  all, all-append, all_mono,
}
use opentelemetry_go.Text.{cut, is_space, trim_left, trim_right}
use opentelemetry_go.Text.Split.{Lacks, cut-eq-some, cut-append}
use opentelemetry_go.Text.Trim.{ends_with, trim_left_self, trim_right_self}
use opentelemetry_go.Trace.Errors.{Result, ok, err, err_invalid_member}
use opentelemetry_go.Trace.State.{
  Member, is_letter, is_alphanumeric, is_key_char, starts, tenant_parts, member_parts,
  no_tenant_key, with_tenant_key, is_key, is_nblk_char, is_value_char, is_value, new_member,
  match_member, parse_member, member_string,
}

-- A member that the W3C format allows.
pub record IsMember (m : Member) : Type 0 where
  pub key_ok : is_key m.key ≡ true
  pub value_ok : is_value m.value ≡ true

-- A byte of a key: one of the class, or the `@` before the system.
key_byte : ℕ → Bool
key_byte c = is_key_char c || c == b'@'

starts-key_bytes :
    (first : ℕ → Bool) (n : ℕ) (s : Bytes)
    → ((c : ℕ) → first c ≡ true → is_key_char c ≡ true)
    → starts first n s ≡ true
    → all key_byte s ≡ true
unfolding starts key_byte
starts-key_bytes first n [] f h = cc
starts-key_bytes first n (c ∷ cs) f h =
    ground (arith, f c, all_mono is_key_char key_byte cs (λ x p. ground arith))

is_letter-key : (c : ℕ) → is_letter c ≡ true → is_key_char c ≡ true
unfolding is_key_char
is_letter-key c h = ground arith

is_alphanumeric-key : (c : ℕ) → is_alphanumeric c ≡ true → is_key_char c ≡ true
unfolding is_key_char
is_alphanumeric-key c h = ground arith

tenant_parts-key_bytes :
    (k : Bytes) (o : Option (Bytes × Bytes))
    → cut b'@' k ≡ o
    → tenant_parts o ≡ true
    → all key_byte k ≡ true
unfolding tenant_parts key_byte
tenant_parts-key_bytes k none e h = cc
tenant_parts-key_bytes k (some (tenant, system)) e h = rw (cut-eq-some b'@' k e) (
    ground (
      arith,
      all-append key_byte tenant (b'@' ∷ system),
      starts-key_bytes is_alphanumeric 240 tenant is_alphanumeric-key,
      starts-key_bytes is_letter 13 system is_letter-key,
    ))

is_key-key_bytes : (k : Bytes) → is_key k ≡ true → all key_byte k ≡ true
unfolding is_key no_tenant_key with_tenant_key
is_key-key_bytes k h = ground (
  arith,
  starts-key_bytes is_letter 255 k is_letter-key,
  tenant_parts-key_bytes k (cut b'@' k) refl,
)

-- Of a list of bytes in a class without `sep`.
key_byte-Lacks-eq : (k : Bytes) → all key_byte k ≡ true → Lacks b'=' k
unfolding key_byte is_key_char
key_byte-Lacks-eq k = all_mono _ _ k (λ c h. ground arith)

key_byte-Lacks-comma : (k : Bytes) → all key_byte k ≡ true → Lacks b',' k
unfolding key_byte is_key_char
key_byte-Lacks-comma k = all_mono _ _ k (λ c h. ground arith)

value-Lacks-comma : (v : Bytes) → is_value v ≡ true → Lacks b',' v
unfolding is_value is_value_char
value-Lacks-comma v h = all_mono is_value_char _ v (λ c p. ground arith) (ground arith)

key_byte-solid : (c : ℕ) → key_byte c ≡ true → is_space c ≡ false
unfolding key_byte is_key_char
key_byte-solid c h = ground arith

ends_with_mono :
    (p q : ℕ → Bool) (s : Bytes)
    → ((c : ℕ) → p c ≡ true → q c ≡ true)
    → ends_with p s ≡ true
    → ends_with q s ≡ true
unfolding ends_with
ends_with_mono p q [] f h = h
ends_with_mono p q (c ∷ []) f h = f c h
ends_with_mono p q (c ∷ d ∷ ds) f h = ends_with_mono p q (d ∷ ds) f h

-- A key begins with a character that is no white space.
key_start : (k : Bytes) → is_key k ≡ true → (s : Bytes) → trim_left (k ++ s) ≡ k ++ s
unfolding is_key no_tenant_key with_tenant_key starts tenant_parts cut
key_start [] h s = cc
key_start (c ∷ cs) h s =
    trim_left_self c (cs ++ s) (key_byte-solid c (ground (arith, is_key-key_bytes (c ∷ cs))))

value_end : (v : Bytes) → is_value v ≡ true → trim_right v ≡ v
unfolding is_value is_nblk_char
value_end v h =
    trim_right_self v
      (ends_with_mono is_nblk_char (λ c. not (is_space c)) v (λ c p. ground arith) (ground arith))

match_member-member_string :
    (m : Member) → IsMember m → match_member (member_string m) ≡ some (m.key, m.value)
unfolding match_member member_string
match_member-member_string m v =
    let k = is_key-key_bytes m.key v.key_ok in
    rw (key_start m.key v.key_ok (b'=' ∷ m.value)) (
      rw (cut-append b'=' m.key m.value (key_byte-Lacks-eq m.key k))
        (unfold member_parts in rw (value_end m.value v.value_ok, v.key_ok, v.value_ok)))

pub parse_member-member_string : (m : Member) → IsMember m → parse_member (member_string m) ≡ ok m
unfolding parse_member
parse_member-member_string m v = rw (match_member-member_string m v, parse_member)

parts-IsMember :
    (o : Option (Bytes × Bytes)) (key value : Bytes)
    → member_parts o ≡ some (key, value)
    → (is_key key ≡ true) × (is_value value ≡ true)
unfolding member_parts
parts-IsMember none key value h = cc
parts-IsMember (some (k, rest)) key value h = (ground arith, ground arith)

-- What `parseMember` accepts is a valid member.
pub parse_member-IsMember : (s : Bytes) (m : Member) → parse_member s ≡ ok m → IsMember m
unfolding parse_member
parse_member-IsMember s m h = found (match_member s) refl h
  where
    found :
        (o : Option (Bytes × Bytes))
        → match_member s ≡ o
        → ◌≡◌ {A = Result Member}
            (elim o [
              | none ↦ err err_invalid_member
              | some (k, v) ↦ ok (record { key = k; value = v })
            ])
            (ok m)
        → IsMember m
    found none e h = cc
    found (some (k, v)) e h =
        let (kk, vv) = parts-IsMember _ k v e in
        record { key_ok = ground arith; value_ok = ground arith }

pub member_string-Lacks-comma : (m : Member) → IsMember m → Lacks b',' (member_string m)
unfolding member_string
member_string-Lacks-comma m v = ground (
  arith,
  all-append (λ c. not (c == b',')) m.key (b'=' ∷ m.value),
  key_byte-Lacks-comma m.key (is_key-key_bytes m.key v.key_ok),
  value-Lacks-comma m.value v.value_ok,
)

pub new_member-IsMember :
    (key value : Bytes) (m : Member)
    → new_member key value ≡ ok m
    → IsMember m × (m.key ≡ key) × (m.value ≡ value)
unfolding new_member
new_member-IsMember key value m h =
    (record { key_ok = ground arith; value_ok = ground arith }, ground arith, ground arith)
