-- ===== src/Run/Env/Keys.antt =====
-- Which user variables are passed on.
use ccbox.Common.{
  ℕ, ◌≡◌, refl, ◌↔◌, true, false, some, [], ◌∷◌, ◌++◌, arith, ◌==◌, inl, inr, Bytes, Bool-cases,
  Option-cases,
}
use ccbox.Fuse.Config.{cut}
use ccbox.Paths.Defs.{is_letter}
use ccbox.Run.Env.{is_key_start, is_key_byte, all_key_bytes, is_key, parse_env_var}

cut-some :
    (sep : ℕ) (s before after : Bytes)
    → cut sep s ≡ some (before, after)
    → s ≡ before ++ sep ∷ after
unfolding cut
cut-some sep [] b a h = absurd (ground arith)
cut-some sep (c ∷ s) b a h = elim (Bool-cases (c == sep)) [
  | inl e ↦ ground (arith, e, (rw (e, cut) at h))
  | inr e ↦ elim (Option-cases (cut sep s)) [
    | inl n ↦ absurd (ground (arith, (rw (e, n, cut) at h)))
    | inr ((x, y), g) ↦ ground (arith, cut-some sep s x y g, (rw (e, g, cut) at h))
  ]
]

key_byte-apart : (c : ℕ) → is_key_byte c ≡ true → c == b'=' ≡ false
unfolding is_key_byte is_key_start is_letter
key_byte-apart c h = ground (arith, h)

first_and_rest :
    (c : ℕ) (key : Bytes)
    → all_key_bytes (c ∷ key) ≡ true
    → (is_key_byte c ≡ true) × (all_key_bytes key ≡ true)
unfolding all_key_bytes
first_and_rest c key h = elim (Bool-cases (is_key_byte c)) [
  | inl e ↦ (e, (rw (e, all_key_bytes) at h))
  | inr e ↦ absurd (ground (arith, (rw (e, all_key_bytes) at h)))
]

cut-key :
    (key value : Bytes)
    → all_key_bytes key ≡ true
    → cut b'=' (key ++ b'=' ∷ value) ≡ some (key, value)
unfolding cut all_key_bytes
cut-key [] value h = refl
cut-key (c ∷ key) value h =
    let (k, rest) = first_and_rest c key h in rw (key_byte-apart c k, cut-key key value rest) refl

is_key-all : (key : Bytes) → is_key key ≡ true → all_key_bytes key ≡ true
unfolding is_key all_key_bytes is_key_byte
is_key-all [] h = refl
is_key-all (c ∷ key) h = ground (arith, h)

accepted :
    (e key value : Bytes)
    → parse_env_var e ≡ some (key, value)
    → (e ≡ key ++ b'=' ∷ value) × (is_key key ≡ true)
unfolding parse_env_var
accepted e key value h = elim (Option-cases (cut b'=' e)) [
  | inl n ↦ absurd (ground (arith, (rw (n, parse_env_var) at h)))
  | inr ((x, y), g) ↦ elim (Bool-cases (is_key x)) [
    | inl k ↦ ground (arith, cut-some b'=' e x y g, (rw (g, k, parse_env_var) at h), k)
    | inr k ↦ absurd (ground (arith, (rw (g, k, parse_env_var) at h)))
  ]
]

accepts :
    (e key value : Bytes)
    → e ≡ key ++ b'=' ∷ value
    → is_key key ≡ true
    → parse_env_var e ≡ some (key, value)
unfolding parse_env_var
accepts e key value p k = rw (p, cut-key key value (is_key-all key k), k, parse_env_var) refl

-- A variable is accepted, as this key and value, exactly where it is the key, an equals sign and the
-- value, and the key is a POSIX name.
pub parse_env_var-is_key :
    (e key value : Bytes)
    → (parse_env_var e ≡ some (key, value)) ↔ ((e ≡ key ++ b'=' ∷ value) × (is_key key ≡ true))
parse_env_var-is_key e key value = (accepted e key value, λ (p, k). accepts e key value p k)
