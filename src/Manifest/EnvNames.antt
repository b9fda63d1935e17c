-- ===== src/Manifest/EnvNames.antt =====
-- Which environment variables a manifest may set (src/manifest.cpp). Letters are those of the C
-- locale.
pub mod Accepted
pub mod Documented
use secretov.Prelude.{
  ℕ, ◌+◌, ◌-◌, Bool, true, false, not, ◌&&◌, ◌||◌, List, [], ◌∷◌, ◌++◌, map, drop, length, ltb, leb,
  ◌==◌, if◌then◌else◌,
}
use secretov.Prelude.Result.{Result, ok, err}
use secretov.Prelude.Sorting.{mem_text}
use secretov.Prelude.Text.{Text, lit, text_eq, is_empty, starts_with}

abbrev pub within : ℕ → ℕ → ℕ → Bool
within low high c = leb low c && leb c high

unfoldable pub is_alpha : ℕ → Bool
is_alpha c = within b'A' b'Z' c || within b'a' b'z' c

unfoldable pub is_alnum : ℕ → Bool
is_alnum c = is_alpha c || within b'0' b'9' c

unfoldable pub to_upper : ℕ → ℕ
to_upper c = if within b'a' b'z' c then c - 32 else c

unfoldable pub all_identifier : Text → Bool
all_identifier [] = true
all_identifier (c ∷ s) = (is_alnum c || c == b'_') && all_identifier s

unfoldable pub is_identifier : Text → Bool
is_identifier [] = false
is_identifier (c ∷ s) = (is_alpha c || c == b'_') && all_identifier (c ∷ s)

abbrev pub denied_prefixes : List Text
denied_prefixes =
    lit "LD_"
    ∷ lit "DYLD_"
    ∷ lit "SECRETOV_"
    ∷ lit "GIT_"
    ∷ lit "XDG_"
    ∷ lit "NPM_CONFIG_"
    ∷ lit "BUNDLE_"
    ∷ lit "GEM_"
    ∷ lit "LUA_"
    ∷ lit "PIP_"
    ∷ lit "UV_"
    ∷ lit "CARGO_"
    ∷ lit "RUSTUP_"
    ∷ lit "RUSTC_"
    ∷ lit "DOTNET_"
    ∷ lit "CORECLR_"
    ∷ lit "AWS_ENDPOINT_URL"
    ∷ lit "CLOUDSDK_"
    ∷ []

abbrev pub denied_names : List Text
denied_names =
    lit "PATH"
    ∷ lit "HOME"
    ∷ lit "BASH_ENV"
    ∷ lit "ENV"
    ∷ lit "IFS"
    ∷ lit "PROMPT_COMMAND"
    ∷ lit "PS1"
    ∷ lit "PS4"
    ∷ lit "ZDOTDIR"
    ∷ lit "PAGER"
    ∷ lit "PSQL_PAGER"
    ∷ lit "MANPAGER"
    ∷ lit "LESSOPEN"
    ∷ lit "LESSCLOSE"
    ∷ lit "EDITOR"
    ∷ lit "VISUAL"
    ∷ lit "GCONV_PATH"
    ∷ lit "NODE_OPTIONS"
    ∷ lit "NODE_PATH"
    ∷ lit "PYTHONSTARTUP"
    ∷ lit "PYTHONPATH"
    ∷ lit "PYTHONHOME"
    ∷ lit "PERL5OPT"
    ∷ lit "PERL5LIB"
    ∷ lit "RUBYOPT"
    ∷ lit "RUBYLIB"
    ∷ lit "JAVA_TOOL_OPTIONS"
    ∷ lit "JDK_JAVA_OPTIONS"
    ∷ lit "_JAVA_OPTIONS"
    ∷ lit "PERLLIB"
    ∷ lit "PYTHONUSERBASE"
    ∷ lit "PSQLRC"
    ∷ lit "SSH_ASKPASS"
    ∷ lit "SSH_ASKPASS_REQUIRE"
    ∷ lit "KUBECONFIG"
    ∷ lit "AWS_CONFIG_FILE"
    ∷ lit "AWS_SHARED_CREDENTIALS_FILE"
    ∷ lit "OPENSSL_CONF"
    ∷ lit "OPENSSL_ENGINES"
    ∷ lit "OPENSSL_MODULES"
    ∷ lit "GOFLAGS"
    ∷ lit "CLASSPATH"
    ∷ lit "MAVEN_OPTS"
    ∷ lit "GRADLE_OPTS"
    ∷ lit "DOCKER_HOST"
    ∷ lit "PYTHONWARNINGS"
    ∷ lit "PYTHONBREAKPOINT"
    ∷ lit "BROWSER"
    ∷ lit "PERL5DB"
    ∷ lit "PHPRC"
    ∷ lit "PHP_INI_SCAN_DIR"
    ∷ lit "GLIBC_TUNABLES"
    ∷ lit "LOCPATH"
    ∷ lit "NLSPATH"
    ∷ lit "SHELLOPTS"
    ∷ lit "BASHOPTS"
    ∷ lit "R_PROFILE_USER"
    ∷ lit "JULIA_LOAD_PATH"
    ∷ lit "TCLLIBPATH"
    ∷ lit "ERL_AFLAGS"
    ∷ lit "ELIXIR_ERL_OPTIONS"
    ∷ lit "RUSTC"
    ∷ lit "RUSTDOC"
    ∷ lit "RUSTFLAGS"
    ∷ lit "RUSTDOCFLAGS"
    ∷ lit "GOENV"
    ∷ lit "GOROOT"
    ∷ lit "GOTOOLCHAIN"
    ∷ lit "GOWORK"
    ∷ lit "CC"
    ∷ lit "CXX"
    ∷ lit "MAKEFLAGS"
    ∷ lit "MFLAGS"
    ∷ lit "GNUMAKEFLAGS"
    ∷ lit "GOPROXY"
    ∷ lit "GONOPROXY"
    ∷ lit "GOPRIVATE"
    ∷ lit "GOSUMDB"
    ∷ lit "GONOSUMDB"
    ∷ lit "GONOSUMCHECK"
    ∷ lit "GOINSECURE"
    ∷ lit "SSL_CERT_FILE"
    ∷ lit "SSL_CERT_DIR"
    ∷ lit "CURL_CA_BUNDLE"
    ∷ lit "REQUESTS_CA_BUNDLE"
    ∷ lit "NODE_EXTRA_CA_CERTS"
    ∷ lit "SSLKEYLOGFILE"
    ∷ lit "NODE_TLS_REJECT_UNAUTHORIZED"
    ∷ lit "AWS_CA_BUNDLE"
    ∷ lit "PYTHONHTTPSVERIFY"
    ∷ lit "AWS_EC2_METADATA_SERVICE_ENDPOINT"
    ∷ lit "AWS_CONTAINER_CREDENTIALS_FULL_URI"
    ∷ lit "AWS_WEB_IDENTITY_TOKEN_FILE"
    ∷ lit "GOOGLE_APPLICATION_CREDENTIALS"
    ∷ lit "GOOGLE_CLOUD_UNIVERSE_DOMAIN"
    ∷ lit "GCE_METADATA_HOST"
    ∷ lit "GCE_METADATA_IP"
    ∷ lit "GCE_METADATA_ROOT"
    ∷ lit "AWS_DATA_PATH"
    ∷ lit "AWS_CSM_HOST"
    ∷ lit "AWS_CONTAINER_AUTHORIZATION_TOKEN_FILE"
    ∷ lit "GRPC_DEFAULT_SSL_ROOTS_FILE_PATH"
    ∷ lit "HTTPLIB2_CA_CERTS"
    ∷ lit "AWS_PROFILE"
    ∷ lit "AWS_DEFAULT_PROFILE"
    ∷ []

abbrev pub credential_names : List Text
credential_names =
    lit "CARGO_REGISTRY_TOKEN"
    ∷ lit "UV_PUBLISH_TOKEN"
    ∷ lit "UV_PUBLISH_PASSWORD"
    ∷ lit "UV_PUBLISH_USERNAME"
    ∷ []

-- The last bytes of `s` are `suffix`, which `s` is at least as long as.
unfoldable pub ends_with : Text → Text → Bool
ends_with suffix s = text_eq (drop (length s - length suffix) s) suffix

unfoldable pub has_prefix_of : List Text → Text → Bool
has_prefix_of [] s = false
has_prefix_of (prefix ∷ prefixes) s = starts_with prefix s || has_prefix_of prefixes s

-- A name that holds a secret although it has a denied prefix.
unfoldable pub is_credential : Text → Bool
is_credential upper =
    mem_text upper credential_names
    || (ltb (length (lit "CARGO_REGISTRIES_") + length (lit "_TOKEN")) (length upper)
        && (starts_with (lit "CARGO_REGISTRIES_") upper && ends_with (lit "_TOKEN") upper))

unfoldable pub is_proxy : Text → Bool
is_proxy upper =
    not (text_eq upper (lit "NO_PROXY"))
    && (leb (length (lit "_PROXY")) (length upper) && ends_with (lit "_PROXY") upper)

unfoldable pub is_denied_env_name : Text → Bool
is_denied_env_name name =
    let upper = map to_upper name in
    if is_credential upper
    then false
    else if has_prefix_of denied_prefixes upper
    then true
    else if mem_text upper denied_names
    then true
    else is_proxy upper

unfoldable pub manifest_error : Text → Text → Text
manifest_error path message = lit "manifest '" ++ path ++ lit "': " ++ message

unfoldable pub require_manifest_env_name : Text → Text → Text → Result Text (Unit {0})
require_manifest_env_name name path what =
    if not (is_identifier name)
    then err (manifest_error path (what ++ lit " is not a valid environment variable name"))
    else if is_denied_env_name name
    then err (
        manifest_error path (
          what
          ++ lit " cannot be set from a manifest (it can load code into the child "
          ++ lit "process, redirect its traffic, or steer secretov)"))
    else ok tt
