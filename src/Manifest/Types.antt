-- ===== src/Manifest/Types.antt =====
-- The validated manifest (src/manifest.rs).
use termux_stacks.Prelude.{ℕ, List, Option}
use termux_stacks.Ordered.Key.{Text}
use termux_stacks.Ordered.Map.{BTreeMap}
use termux_stacks.Ordered.Set.{BTreeSet}

pub data MountKind : Type 0 where
  volume bind : MountKind

pub record Mount : Type 0 where
  pub kind : MountKind
  pub source : Text
  pub target : Text

pub record Port : Type 0 where
  pub address : Text
  pub port : ℕ

pub data RestartPolicy : Type 0 where
  never on_failure always : RestartPolicy

pub record Service : Type 0 where
  pub name : Text
  pub image : Text
  pub command : Option (List Text)
  pub environment : BTreeMap Text Text
  pub mounts : List Mount
  pub ports : List Port
  pub depends_on : List Text
  pub restart : RestartPolicy

pub record Manifest : Type 0 where
  pub name : Text
  pub services : BTreeMap Text Service
  pub volumes : BTreeSet Text
