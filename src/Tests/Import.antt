-- ===== src/Tests/Import.antt =====
-- An import of one variable into an empty store.
use secretov.Prelude.{none, some, false, [], if◌then◌else◌}
use secretov.Prelude.Text.{Text, lit, text_eq}
use secretov.Prelude.Map.{Map, insert}
use secretov.Prelude.Result.{ok, err}
use secretov.Client.Import.{Import, Server, import}
use secretov.Client.Import.Ordered.{IsImport, import-IsImport}
use secretov.Io.{World}
use secretov.Tests.Document.{trees}
use secretov.Tests.Platform.{small}

abbrev keeping : Server (Map Text)
keeping = record {
  set = λ key value s. (ok tt, insert key value s);
  get_prefix = λ prefix s. ok s;
  check_set =
      λ key value. if text_eq value (lit "huge") then err (lit "value too large") else ok tt;
}

abbrev dotenv : World
dotenv = record {
  disk = λ q. if text_eq (lit ".env") q then some (lit "A=1\n") else none;
  calls = 0;
  stderr = [];
}

abbrev into_new : Import
into_new = record {
  env = lit "dev";
  overwrite = false;
  file = lit ".env";
  base = record {
    manifest = none;
    text = [];
    project = lit "app";
    write_path = lit "/w/.secretov.yaml";
  };
  creatable = ok tt;
}

import-IsImport_example :
    IsImport small trees keeping into_new [] dotenv (import small trees keeping into_new [] dotenv)
import-IsImport_example = import-IsImport small trees keeping into_new [] dotenv
