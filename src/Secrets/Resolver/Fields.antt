-- ===== src/Secrets/Resolver/Fields.antt =====
-- The fields that `resolve_mapping` of
-- plugins/shms-secret-resolver/shms_secret_resolver/resolver.py gives, and when it raises.
use nautobot_docker_compose.Base.{
  ◌∙◌, ◌&&◌, not, Bool, ◌≡◌, refl, true, false, Option, none, some, List, [], ◌∷◌, ◌==◌, nat_eq,
  list_eq, list_beq_iff, if◌then◌else◌, contains, distinct, arith,
}
use nautobot_docker_compose.Secrets.Json.{raised, returned, ◌>=>◌, Outcome, Members}
use nautobot_docker_compose.Secrets.Resolver.{
  read_vault_secret, from_vault, text_or, VaultSecretRef, resolve_value, or_keys, fill,
  resolve_mapping, first_nonempty, first_key, env_fields, unresolved_fields, vault_fields, keys_of,
  set_found,
}
use nautobot_docker_compose.Secrets.Vault.{
  read_vault_secret, VaultSecretRef, VaultClientConfig, Session,
}
use nautobot_docker_compose.Base.Text.{Text, is_empty}
use nautobot_docker_compose.Base.Dict.{Dict, lookup, insert, keys, lookup-insert}

-- What a lookup gives after it was found in Vault or not.
unfoldable pub found_or : Option Text → Option Text → Option Text
found_or none old = old
found_or (some value) old = some value

contains-keys :
    {V : Type 0} (f : Text) (d : Dict V) {v : V} → lookup f d ≡ some v → contains (keys d) f ≡ true
unfolding lookup keys contains
contains-keys f [] h = cc
contains-keys f ((k, w) ∷ d) {v} h = ground (arith, contains-keys f d {v = v})

-- `resolve_mapping(...)[f]`
abbrev pub field_of : Text → Outcome (Dict Text) → Outcome Text
field_of f outcome = outcome >=> (λ values. returned (text_or [] (lookup f values)))

-- The environment gives every field.
unfoldable pub is_complete : Dict Text → Dict (List Text) → Bool
is_complete env [] = true
is_complete env ((f, names) ∷ fields) =
    not (is_empty (first_nonempty env names)) && is_complete env fields

-- A field's value: from the environment, else from the secret, else empty.
either :
    (value : Text) (found : Option Text)
    → ◌≡◌ {A = Outcome Text}
        (returned (text_or [] (if is_empty value then found_or found (some value) else some value)))
        (if is_empty value then returned (text_or [] found) else returned value)
unfolding found_or
either [] none = refl
either [] (some value) = refl
either (c ∷ cs) found = refl

module _ (shown : Members → Text) (config : VaultClientConfig) (session : Session) where
  lookup-env_fields_absent :
      (env : Dict Text) (fields : Dict (List Text)) (values : Dict Text) (f : Text)
      → contains (keys fields) f ≡ false
      → lookup f (env_fields shown config session env fields values) ≡ lookup f values
  unfolding env_fields keys contains
  lookup-env_fields_absent env [] values f h = refl
  lookup-env_fields_absent env ((g, names) ∷ fields) values f h =
      rw
        (
          lookup-env_fields_absent env fields (insert g (first_nonempty env names) values) f
              (ground arith),
          lookup-insert g f (first_nonempty env names) values,
        )
        (ground arith)

  lookup-env_fields :
      (env : Dict Text) (fields : Dict (List Text)) (values : Dict Text) (f : Text)
      (names : List Text)
      → distinct (keys fields) ≡ true
      → lookup f fields ≡ some names
      → lookup f (env_fields shown config session env fields values)
        ≡ some (first_nonempty env names)
  unfolding env_fields keys distinct lookup
  lookup-env_fields env [] values f names d h = cc
  lookup-env_fields env ((g, ns) ∷ fields) values f names d h = ground (
    arith,
    list_beq_iff g f,
    lookup-env_fields env fields (insert g (first_nonempty env ns) values) f names,
    lookup-env_fields_absent env fields (insert g (first_nonempty env ns) values) f,
    lookup-insert g f (first_nonempty env ns) values,
  )

  unresolved_absent :
      (env : Dict Text) (fields : Dict (List Text)) (f : Text)
      → contains (keys fields) f ≡ false
      → contains (unresolved_fields shown config session env fields) f ≡ false
  unfolding unresolved_fields keys contains
  unresolved_absent env [] f h = refl
  unresolved_absent env ((g, names) ∷ fields) f h = ground (arith, unresolved_absent env fields f)

  contains-unresolved :
      (env : Dict Text) (fields : Dict (List Text)) (f : Text) (names : List Text)
      → distinct (keys fields) ≡ true
      → lookup f fields ≡ some names
      → contains (unresolved_fields shown config session env fields) f
        ≡ is_empty (first_nonempty env names)
  unfolding unresolved_fields keys contains distinct lookup
  contains-unresolved env [] f names d h = cc
  contains-unresolved env ((g, ns) ∷ fields) f names d h = ground (
    arith,
    list_beq_iff g f,
    contains-unresolved env fields f names,
    unresolved_absent env fields f,
  )

  lookup-set_found :
      (f g : Text) (value : Option Text) (values : Dict Text)
      → lookup f (set_found shown config session g value values)
        ≡ (if g == f then found_or value (lookup f values) else lookup f values)
  unfolding set_found found_or
  lookup-set_found f g none values = ground arith
  lookup-set_found f g (some value) values = lookup-insert g f value values

  lookup-vault_fields :
      (key_map : Dict (List Text)) (fields : List Text) (secret_data : Members) (values : Dict Text)
      (f : Text)
      → lookup f (vault_fields shown config session key_map fields secret_data values) ≡ (
          if contains fields f
          then found_or
              (first_key shown (keys_of shown config session key_map f) secret_data)
              (lookup f values)
          else lookup f values)
  unfolding vault_fields contains found_or
  lookup-vault_fields key_map [] secret_data values f = refl
  lookup-vault_fields key_map (g ∷ fields) secret_data values f =
      let value = first_key shown (keys_of shown config session key_map g) secret_data in
      ground (
        arith,
        list_beq_iff g f,
        lookup-vault_fields key_map fields secret_data
            (set_found shown config session g value values) f,
        lookup-set_found f g value values,
      )

  or_keys-none : (own : List Text) → or_keys shown config session own [] ≡ own
  unfolding or_keys
  or_keys-none [] = refl
  or_keys-none (key ∷ own) = refl

  fill-returned :
      (key_map : Dict (List Text)) (fields : List Text) (vault : VaultSecretRef)
      (values : Dict Text) (secret_data : Members)
      → read_vault_secret config session vault ≡ returned secret_data
      → fill shown config session key_map fields (some vault) values
        ≡ returned (vault_fields shown config session key_map fields secret_data values)
  unfolding fill vault_fields
  fill-returned key_map [] vault values secret_data h = refl
  fill-returned key_map (f ∷ fields) vault values secret_data h = rw h

  fill-raised :
      (key_map : Dict (List Text)) (fields : List Text) (vault : VaultSecretRef)
      (values : Dict Text) (f : Text)
      → contains fields f ≡ true
      → read_vault_secret config session vault ≡ raised
      → fill shown config session key_map fields (some vault) values ≡ raised
  unfolding fill contains
  fill-raised key_map [] vault values f c h = cc
  fill-raised key_map (g ∷ fields) vault values f c h = rw h

  -- Where Vault answers, each field of the mapping has the value that `resolve_value` gives for the
  -- field's own environment names and keys, if the fields have different names and the reference
  -- lists no keys of its own.
  pub resolve_mapping-field :
      (env : Dict Text) (fields : Dict (List Text)) (vault : VaultSecretRef)
      (key_map : Dict (List Text)) (secret_data : Members) (f : Text) (names : List Text)
      → distinct (keys fields) ≡ true
      → lookup f fields ≡ some names
      → vault.keys ≡ []
      → read_vault_secret config session vault ≡ returned secret_data
      → field_of f (resolve_mapping shown config session env fields (some vault) key_map)
        ≡ resolve_value shown config session env names
            (some vault)
            (keys_of shown config session key_map f)
  unfolding resolve_mapping resolve_value from_vault
  resolve_mapping-field env fields vault key_map secret_data f names d l k h =
      let unresolved = unresolved_fields shown config session env fields in
      let values = env_fields shown config session env fields [] in
      rw (fill-returned key_map unresolved vault values secret_data h) (
        rw
          (
            lookup-vault_fields key_map unresolved secret_data values f,
            contains-unresolved env fields f names d l,
            lookup-env_fields env fields [] f names d l,
            h,
            k,
            or_keys-none (keys_of shown config session key_map f),
          )
          (either (first_nonempty env names)
            (first_key shown (keys_of shown config session key_map f) secret_data)))

  -- Where Vault raises, so does the mapping, if the environment leaves one of its fields empty.
  pub resolve_mapping-raised :
      (env : Dict Text) (fields : Dict (List Text)) (vault : VaultSecretRef)
      (key_map : Dict (List Text)) (f : Text) (names : List Text)
      → distinct (keys fields) ≡ true
      → lookup f fields ≡ some names
      → is_empty (first_nonempty env names) ≡ true
      → read_vault_secret config session vault ≡ raised
      → resolve_mapping shown config session env fields (some vault) key_map ≡ raised
  unfolding resolve_mapping
  resolve_mapping-raised env fields vault key_map f names d l e h =
      fill-raised key_map (unresolved_fields shown config session env fields) vault
        (env_fields shown config session env fields []) f
        (contains-unresolved env fields f names d l ∙ e) h

  no_unresolved :
      (env : Dict Text) (fields : Dict (List Text))
      → is_complete env fields ≡ true
      → unresolved_fields shown config session env fields ≡ []
  unfolding unresolved_fields is_complete
  no_unresolved env [] h = refl
  no_unresolved env ((f, names) ∷ fields) h = ground (arith, no_unresolved env fields)

  -- Where the environment gives every field, the mapping has the environment's values, whatever
  -- Vault is and whatever it would answer.
  pub resolve_mapping_complete :
      (env : Dict Text) (fields : Dict (List Text)) (vault : Option VaultSecretRef)
      (key_map : Dict (List Text)) (f : Text) (names : List Text)
      → distinct (keys fields) ≡ true
      → is_complete env fields ≡ true
      → lookup f fields ≡ some names
      → field_of f (resolve_mapping shown config session env fields vault key_map)
        ≡ returned (first_nonempty env names)
  unfolding resolve_mapping fill
  resolve_mapping_complete env fields vault key_map f names d c l =
      rw (no_unresolved env fields c) (rw (lookup-env_fields env fields [] f names d l))
