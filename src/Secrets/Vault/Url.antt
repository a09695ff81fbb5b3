-- ===== src/Secrets/Vault/Url.antt =====
-- The URL of a secret, `_secret_url` of resolver.py, against the parts of the address.
use mathlib.Core.List.{append-nil, reverse-reverse, append_assoc, reverse-append}
use nautobot_docker_compose.Base.Text.Laws.{
  clean_last-reverse, drop_while-eq_of_clean, clean_head, clean_last,
}
use nautobot_docker_compose.Base.{
  sym, inl, inr, Bool-cases, refl, ◌∷◌, ap, true, ◌⊎◌, zero, ◌∙◌, list_eq, nat_eq, ◌≡◌, ◌==◌, suc,
  ◌++◌, if◌then◌else◌, [], ℕ,
}
use nautobot_docker_compose.Secrets.Vault.{
  reverse, VaultSecretRef, is_slash, VaultClientConfig, rstrip_slashes, secret_url, strip_slashes,
}
use nautobot_docker_compose.Base.Text.{codes, strip_by, drop_while, Text}

abbrev pub slashes : ℕ → Text
slashes zero = []
slashes (suc n) = b'/' ∷ slashes n

-- Neither end is a slash.
abbrev pub IsBare : Text → Type 0
IsBare s = (clean_head is_slash s ≡ true) × (clean_last is_slash s ≡ true)

drop_while-slashes :
    (n : ℕ) (s : Text) → drop_while is_slash (slashes n ++ s) ≡ drop_while is_slash s
unfolding drop_while is_slash
drop_while-slashes zero s = refl
drop_while-slashes (suc n) s = drop_while-slashes n s

-- Slashes at the end make no difference to what is left without them.
rstrip-slashes : (n : ℕ) (s : Text) → rstrip_slashes (s ++ slashes n) ≡ rstrip_slashes s
rstrip-slashes zero s = ap rstrip_slashes (append-nil s)
rstrip-slashes (suc n) s =
    ap rstrip_slashes (sym (append_assoc s (b'/' ∷ []) (slashes n)))
    ∙ rstrip-slashes n (s ++ (b'/' ∷ []))
    ∙ unfold rstrip_slashes drop_while is_slash in rw (reverse-append s (b'/' ∷ [])) refl

rstrip_clean : (s : Text) → clean_last is_slash s ≡ true → rstrip_slashes s ≡ s
unfolding rstrip_slashes
rstrip_clean s h =
    let clean : clean_head is_slash (reverse s) ≡ true =
      sym (clean_last-reverse is_slash (reverse s))
      ∙ ap (clean_last is_slash) (reverse-reverse s)
      ∙ h in
    rw (drop_while-eq_of_clean is_slash (reverse s) clean) (reverse-reverse s)

strip-rstrip : (s : Text) → strip_slashes s ≡ rstrip_slashes (drop_while is_slash s)
unfolding strip_slashes rstrip_slashes strip_by
strip-rstrip s = refl

clean_head-append :
    (s : Text) (n : ℕ) → IsBare s → drop_while is_slash (s ++ slashes n) ≡ s ++ slashes n ⊎ (s ≡ [])
clean_head-append [] n h = inr refl
clean_head-append (c ∷ s) n h = inl (drop_while-eq_of_clean is_slash (c ∷ (s ++ slashes n)) (h.0))

all_slashes : (n : ℕ) → drop_while is_slash (slashes n) ≡ []
unfolding drop_while is_slash
all_slashes zero = refl
all_slashes (suc n) = all_slashes n

strip-bare : (s : Text) (i j : ℕ) → IsBare s → strip_slashes (slashes i ++ (s ++ slashes j)) ≡ s
strip-bare s i j h =
    strip-rstrip (slashes i ++ (s ++ slashes j))
    ∙ ap rstrip_slashes (drop_while-slashes i (s ++ slashes j))
    ∙ elim (clean_head-append s j h) [
      | inl e ↦ ap rstrip_slashes e ∙ rstrip-slashes j s ∙ rstrip_clean s (h.1)
      | inr e ↦ rw e (ap rstrip_slashes (all_slashes j) ∙ rstrip_clean [] refl)
    ]

-- The segment between the mount and the path.
abbrev pub data_segment : Text → Text
data_segment kv_version = if kv_version == codes "v2" then codes "/data/" else codes "/"

-- With any number of slashes after the base address and around the mount and the path, none of which
-- has one at these ends of its own, the URL of a secret is the base, `/v1/`, the mount, `/data/` in
-- the second version of the engine and `/` otherwise, and the path.
pub secret_url-slashes :
    (config : VaultClientConfig) (vault : VaultSecretRef) (base mount path : Text) (h i j k l : ℕ)
    → clean_last is_slash base ≡ true
    → IsBare mount
    → IsBare path
    → config.url ≡ base ++ slashes h
    → vault.mount ≡ slashes i ++ (mount ++ slashes j)
    → vault.path ≡ slashes k ++ (path ++ slashes l)
    → secret_url config vault
      ≡ base ++ (codes "/v1/" ++ (mount ++ (data_segment vault.kv_version ++ path)))
unfolding secret_url
secret_url-slashes config vault base mount path h i j k l clean bare_mount bare_path url at_mount
      at_path =
    rw (url, at_mount, at_path)
      (rw
        (
          rstrip-slashes h base,
          rstrip_clean base clean,
          strip-bare mount i j bare_mount,
          strip-bare path k l bare_path,
        )
        (elim (Bool-cases (vault.kv_version == codes "v2")) [
          | inl e ↦ rw e refl
          | inr e ↦ rw e refl
        ]))
