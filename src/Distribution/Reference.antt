-- ===== src/Distribution/Reference.antt =====
-- pkg/distribution/oci/reference/reference.go. The parser of the distribution/reference library is
-- a parameter, which gives what the code asks of its result. The field `ref` of a tag or a digest
-- is left out: nothing reads it.
use model_runner.Common.{
  ◌+◌, Bool, true, false, ◌&&◌, ◌||◌, not, [], ◌++◌, Option, none, some, Text, codes, text_eq,
  has_prefix, index_of, contains, trim_prefix, ltb, if◌then◌else◌, take, drop,
}
use model_runner.Common.Strings.{last_index, has_suffix}

abbrev pub default_registry : Text
default_registry = codes "index.docker.io"

abbrev pub default_tag : Text
default_tag = codes "latest"

abbrev pub default_org : Text
default_org = codes "ai"

pub record Registry : Type 0 where
  pub registry : Text
  pub insecure : Bool

pub record Repository : Type 0 where
  pub registry : Registry
  pub repository : Text

unfoldable pub repository_name : Repository → Text
repository_name r =
    if text_eq r.registry.registry default_registry
    then r.repository
    else r.registry.registry ++ codes "/" ++ r.repository

unfoldable pub is_insecure_host : Text → Bool
is_insecure_host host =
    let host_without_port : Text = elim (last_index (codes ":") host) [
      | none ↦ host
      | some i ↦ take i host
    ] in
    text_eq host_without_port (codes "localhost") || has_suffix (codes ".local") host_without_port

unfoldable pub scheme : Registry → Text
scheme r = if r.insecure || is_insecure_host r.registry then codes "http" else codes "https"

pub record Tag : Type 0 where
  pub registry : Registry
  pub repository : Text
  pub tag : Text

unfoldable pub tag_string : Tag → Text
tag_string t = t.registry.registry ++ codes "/" ++ t.repository ++ codes ":" ++ t.tag

unfoldable pub tag_context : Tag → Repository
tag_context t = record { registry = t.registry; repository = t.repository }

unfoldable pub tag_scope : Tag → Text → Text
tag_scope t action = codes "repository:" ++ t.repository ++ codes ":" ++ action

pub record Digest : Type 0 where
  pub registry : Registry
  pub repository : Text
  pub digest : Text

unfoldable pub digest_string : Digest → Text
digest_string d = d.registry.registry ++ codes "/" ++ d.repository ++ codes "@" ++ d.digest

unfoldable pub digest_context : Digest → Repository
digest_context d = record { registry = d.registry; repository = d.repository }

unfoldable pub digest_scope : Digest → Text → Text
digest_scope d action = codes "repository:" ++ d.repository ++ codes ":" ++ action

pub data Reference : Type 0 where
  tagged : Tag → Reference
  digested : Digest → Reference

unfoldable pub reference_string : Reference → Text
reference_string (tagged t) = tag_string t
reference_string (digested d) = digest_string d

unfoldable pub reference_context : Reference → Repository
unfolding tag_context digest_context
reference_context (tagged t) = tag_context t
reference_context (digested d) = digest_context d

unfoldable pub reference_name : Reference → Text
reference_name r = repository_name (reference_context r)

unfoldable pub identifier : Reference → Text
identifier (tagged t) = t.tag
identifier (digested d) = d.digest

pub record Options : Type 0 where
  pub default_registry_option : Text
  pub default_org_option : Text
  pub insecure : Bool

-- The options that GetDefaultRegistryOptions of registry/client.go gives for the values of
-- DEFAULT_REGISTRY and INSECURE_REGISTRY, applied to the defaults of ParseReference.
unfoldable pub default_options : Text → Text → Options
default_options default_reg insecure_registry = record {
  default_registry_option = if text_eq default_reg [] then default_registry else default_reg;
  default_org_option = default_org;
  insecure = text_eq insecure_registry (codes "true");
}

-- What reference.Domain, reference.Path and the assertions to Tagged and Digested say of a parsed
-- name.
pub record Named : Type 0 where
  pub domain : Text
  pub path : Text
  pub tag : Option Text
  pub digest : Option Text

unfoldable pub has_explicit_registry : Text → Bool
has_explicit_registry s = elim (index_of (codes "/") s) [
  | none ↦ false
  | some i ↦
      if ltb 0 i then contains (codes ".") (take i s) || contains (codes ":") (take i s) else false
]

unfoldable pub has_explicit_org : Text → Bool
has_explicit_org s = elim (index_of (codes "/") s) [
  | none ↦ false
  | some i ↦
      if ltb 0 i
      then (if has_explicit_registry s then contains (codes "/") (drop (i + 1) s) else true)
      else false
]

unfoldable pub choose_domain : Options → Text → Named → Text
choose_domain o s named =
    if not (has_explicit_registry s) && not (text_eq o.default_registry_option default_registry)
    then o.default_registry_option
    else named.domain

unfoldable pub choose_path : Options → Text → Named → Text
choose_path o s named =
    if not (has_explicit_org s)
      && not (text_eq o.default_org_option [])
      && has_prefix (codes "library/") named.path
    then o.default_org_option ++ codes "/" ++ trim_prefix (codes "library/") named.path
    else named.path

unfoldable pub of_named : Options → Text → Named → Reference
of_named o s named =
    let registry : Registry = record {
      registry = choose_domain o s named;
      insecure = o.insecure;
    } in
    let repository = choose_path o s named in
    elim named.tag [
      | some t ↦ tagged (record { registry = registry; repository = repository; tag = t })
      | none ↦ elim named.digest [
        | some d ↦ digested (record { registry = registry; repository = repository; digest = d })
        | none ↦ tagged (record { registry = registry; repository = repository; tag = default_tag })
      ]
    ]

-- `parse_named` is reference.ParseNormalizedNamed.
unfoldable pub parse_reference : (Text → Option Named) → Options → Text → Option Reference
parse_reference parse_named o s = elim (parse_named s) [
  | none ↦ none
  | some named ↦ some (of_named o s named)
]

unfoldable pub new_tag : (Text → Option Named) → Options → Text → Option Tag
new_tag parse_named o s = elim (parse_reference parse_named o s) [
  | none ↦ none
  | some r ↦ elim r [ tagged t ↦ some t | digested d ↦ none ]
]
