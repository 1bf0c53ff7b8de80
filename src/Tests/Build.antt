-- ===== src/Tests/Build.antt =====
-- The build script over the operating system of the link.
use libarena_rs.Common.{
  ◌≡◌, refl, true, false, not, Option, none, some, List, [], ◌∷◌, ◌++◌, ◌⊎◌, Text, codes, text_eq,
  if◌then◌else◌, join_path, parent,
}
use libarena_rs.Linker.Session.{Host, envv, Session, ok, Ran, ended}
use libarena_rs.Linker.Session.Failing.{by_panic, Succeeded, Failed}
use libarena_rs.Build.Failing.{build_stops}
use libarena_rs.Tests.Link.{mock}
use libarena_rs.Linker.Session.Returning.{Serves}
use libarena_rs.Build.Session.{Builder, done}
use libarena_rs.Linker.Tools.{Tools}
use libarena_rs.Build.Script.{main}
use libarena_rs.Build.Script.Returning.{Packs, HasHeaders, build_returns}

abbrev variables : Text → Option Text
variables name =
    if text_eq name (codes "CARGO_MANIFEST_DIR")
    then some (codes "/crate")
    else if text_eq name (codes "OUT_DIR")
    then some (codes "/out")
    else if text_eq name (codes "CARGO_CFG_TARGET_ARCH")
    then some (codes "bpf")
    else if text_eq name (codes "LIBBPF_INCLUDE")
    then some (codes "/inc")
    else none

abbrev build_host : Host
build_host = record mock { env_var = variables }

abbrev builder : Builder
builder = record {
  host = build_host;
  packer = record {
    Archive = Unit {0};
    create = λ w path. (done tt, w);
    append_dir_all = λ w a name path. (done tt, w);
    finish = λ w a. (done tt, w);
  };
  has_var = λ n. false;
  arch = codes "x86_64";
  remove_file = λ w path. w;
}

serves : Serves build_host
serves = record {
  written = λ w path text. refl;
  made = λ w path. refl;
  resolved = λ w path. (path, refl);
  listed = λ w dir. ((dir ++ codes "/m.bc") ∷ [], refl);
  succeeds = λ w c. (record { success = true; stdout = []; stderr = [] }, refl, refl);
}

packs : Packs builder
packs = record {
  creates = λ w path. (tt, refl);
  appends = λ w a name path. (tt, refl);
  finishes = λ w a. refl;
}

headers : HasHeaders builder (codes "/out")
unfolding text_eq join_path parent envv
headers = record {
  libbpf = codes "/inc";
  libbpf_given = refl;
  helpers = λ w. refl;
  vmlinux_dir = codes "/out";
  vmlinux_in = refl;
}

abbrev fresh : Session (Unit {0})
fresh = record { world = tt; ran = []; printed = [] }

build_returns_example : (main builder fresh).0 ≡ ok tt
build_returns_example =
    build_returns builder serves packs (codes "/crate") (codes "/out") (unfold text_eq in refl)
      (unfold text_eq in refl) (λ w. refl) headers fresh

-- Commands that all fail.
abbrev broken : Builder
broken = record builder {
  host = record build_host {
    output = λ w c. (ended (record { success = false; stdout = []; stderr = codes "no" }), w);
  };
}

build_stops_example :
    (xs : List Ran) × ((main broken fresh).1.ran ≡ fresh.ran ++ xs)
    × (Succeeded xs ⊎ Failed by_panic (main broken fresh).0 xs)
build_stops_example = build_stops broken fresh

-- A file system where one library directory has no archive.
abbrev shelved : Builder
shelved = record builder {
  host = record build_host { exists = λ w path. not (text_eq path (codes "/lib/libarena_c.a")) };
}

abbrev tools : Tools
tools = record { bin = none; python = codes "python3" }
