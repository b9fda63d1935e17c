-- ===== src/Manifest/EnvNames/Documented.antt =====
-- The names that USING.md says a manifest cannot set, in upper case: its own list, in its order.
use secretov.Prelude.{◌≡◌, ◌<◌, true, ◌++◌, List, [], ◌∷◌, length}
use secretov.Prelude.Sorting.{mem_text}
use secretov.Prelude.Text.{Text, lit}

-- Any name that starts so.
abbrev pub documented_prefixes : List Text
documented_prefixes =
    lit "LD_"
    ∷ lit "DYLD_"
    ∷ lit "SECRETOV_"
    ∷ lit "GIT_"
    ∷ lit "XDG_"
    ∷ lit "NPM_CONFIG_"
    ∷ lit "BUNDLE_"
    ∷ lit "GEM_"
    ∷ lit "LUA_"
    ∷ lit "PIP_"
    ∷ lit "UV_"
    ∷ lit "CARGO_"
    ∷ lit "RUSTUP_"
    ∷ lit "RUSTC_"
    ∷ lit "DOTNET_"
    ∷ lit "CORECLR_"
    ∷ lit "AWS_ENDPOINT_URL"
    ∷ lit "CLOUDSDK_"
    ∷ []

abbrev pub documented_names : List Text
documented_names =
    lit "PATH"
    ∷ lit "HOME"
    ∷ lit "BASH_ENV"
    ∷ lit "ENV"
    ∷ lit "IFS"
    ∷ lit "PROMPT_COMMAND"
    ∷ lit "PS1"
    ∷ lit "PS4"
    ∷ lit "ZDOTDIR"
    ∷ lit "PAGER"
    ∷ lit "PSQL_PAGER"
    ∷ lit "MANPAGER"
    ∷ lit "LESSOPEN"
    ∷ lit "LESSCLOSE"
    ∷ lit "EDITOR"
    ∷ lit "VISUAL"
    ∷ lit "GCONV_PATH"
    ∷ lit "NODE_OPTIONS"
    ∷ lit "NODE_PATH"
    ∷ lit "PYTHONSTARTUP"
    ∷ lit "PYTHONPATH"
    ∷ lit "PYTHONHOME"
    ∷ lit "PERL5OPT"
    ∷ lit "PERL5LIB"
    ∷ lit "PERLLIB"
    ∷ lit "RUBYOPT"
    ∷ lit "RUBYLIB"
    ∷ lit "JAVA_TOOL_OPTIONS"
    ∷ lit "JDK_JAVA_OPTIONS"
    ∷ lit "_JAVA_OPTIONS"
    ∷ lit "PYTHONUSERBASE"
    ∷ lit "PSQLRC"
    ∷ lit "SSH_ASKPASS"
    ∷ lit "SSH_ASKPASS_REQUIRE"
    ∷ lit "KUBECONFIG"
    ∷ lit "AWS_CONFIG_FILE"
    ∷ lit "AWS_SHARED_CREDENTIALS_FILE"
    ∷ lit "OPENSSL_CONF"
    ∷ lit "OPENSSL_ENGINES"
    ∷ lit "OPENSSL_MODULES"
    ∷ lit "GOFLAGS"
    ∷ lit "CLASSPATH"
    ∷ lit "MAVEN_OPTS"
    ∷ lit "GRADLE_OPTS"
    ∷ lit "DOCKER_HOST"
    ∷ lit "PYTHONWARNINGS"
    ∷ lit "PYTHONBREAKPOINT"
    ∷ lit "BROWSER"
    ∷ lit "PERL5DB"
    ∷ lit "PHPRC"
    ∷ lit "PHP_INI_SCAN_DIR"
    ∷ lit "GLIBC_TUNABLES"
    ∷ lit "LOCPATH"
    ∷ lit "NLSPATH"
    ∷ lit "SHELLOPTS"
    ∷ lit "BASHOPTS"
    ∷ lit "R_PROFILE_USER"
    ∷ lit "JULIA_LOAD_PATH"
    ∷ lit "TCLLIBPATH"
    ∷ lit "ERL_AFLAGS"
    ∷ lit "ELIXIR_ERL_OPTIONS"
    ∷ lit "RUSTC"
    ∷ lit "RUSTDOC"
    ∷ lit "RUSTFLAGS"
    ∷ lit "RUSTDOCFLAGS"
    ∷ lit "GOENV"
    ∷ lit "GOROOT"
    ∷ lit "GOTOOLCHAIN"
    ∷ lit "GOWORK"
    ∷ lit "CC"
    ∷ lit "CXX"
    ∷ lit "MAKEFLAGS"
    ∷ lit "MFLAGS"
    ∷ lit "GNUMAKEFLAGS"
    ∷ lit "GOPROXY"
    ∷ lit "GONOPROXY"
    ∷ lit "GOPRIVATE"
    ∷ lit "GOSUMDB"
    ∷ lit "GONOSUMDB"
    ∷ lit "GONOSUMCHECK"
    ∷ lit "GOINSECURE"
    ∷ lit "SSL_CERT_FILE"
    ∷ lit "SSL_CERT_DIR"
    ∷ lit "CURL_CA_BUNDLE"
    ∷ lit "REQUESTS_CA_BUNDLE"
    ∷ lit "AWS_CA_BUNDLE"
    ∷ lit "NODE_EXTRA_CA_CERTS"
    ∷ lit "NODE_TLS_REJECT_UNAUTHORIZED"
    ∷ lit "PYTHONHTTPSVERIFY"
    ∷ lit "SSLKEYLOGFILE"
    ∷ lit "AWS_EC2_METADATA_SERVICE_ENDPOINT"
    ∷ lit "AWS_CONTAINER_CREDENTIALS_FULL_URI"
    ∷ lit "AWS_WEB_IDENTITY_TOKEN_FILE"
    ∷ lit "GOOGLE_APPLICATION_CREDENTIALS"
    ∷ lit "GOOGLE_CLOUD_UNIVERSE_DOMAIN"
    ∷ lit "GCE_METADATA_HOST"
    ∷ lit "GCE_METADATA_IP"
    ∷ lit "GCE_METADATA_ROOT"
    ∷ lit "AWS_DATA_PATH"
    ∷ lit "AWS_CSM_HOST"
    ∷ lit "AWS_CONTAINER_AUTHORIZATION_TOKEN_FILE"
    ∷ lit "GRPC_DEFAULT_SSL_ROOTS_FILE_PATH"
    ∷ lit "HTTPLIB2_CA_CERTS"
    ∷ lit "AWS_PROFILE"
    ∷ lit "AWS_DEFAULT_PROFILE"
    ∷ []

-- The credentials that are excepted.
pub data IsCredential : Text → Type 0 where
  cargo_registry : IsCredential (lit "CARGO_REGISTRY_TOKEN")
  cargo_registries :
      (name : Text)
      → 0 < length name
      → IsCredential (lit "CARGO_REGISTRIES_" ++ (name ++ lit "_TOKEN"))
  uv_token : IsCredential (lit "UV_PUBLISH_TOKEN")
  uv_password : IsCredential (lit "UV_PUBLISH_PASSWORD")
  uv_username : IsCredential (lit "UV_PUBLISH_USERNAME")

-- No name of the list, none with a prefix of the list, and no proxy but NO_PROXY.
pub record IsHarmless (upper : Text) : Type 0 where
  pub not_named : (denied : Text) → mem_text denied documented_names ≡ true → ¬ (upper ≡ denied)
  pub no_prefix :
      (prefix rest : Text) → mem_text prefix documented_prefixes ≡ true → ¬ (upper ≡ prefix ++ rest)
  pub no_proxy : (front : Text) → upper ≡ front ++ lit "_PROXY" → upper ≡ lit "NO_PROXY"
