-- ===== src/Store/FileStore.antt =====
-- The JSON file stores: backend/internal/networking/ssh_allocation_store.go, and at other types
-- networking/exposure_store.go, services/service_store.go, connections/connection_store.go,
-- snapshots/store.go and workloads/store.go. A Save writes a temporary file and renames it.
pub mod Atomic
pub mod RoundTrip
use Prim.Native.String.{◌++◌}
use mystic_hypervisor.Prelude.Maps.{GoMap, get, put, delete}
use mystic_hypervisor.Prelude.{
  Bool, true, false, not, String, Option, none, some, ◌≡◌, ◌≢◌, ◌==◌, string_eq, if◌then◌else◌,
}
use mystic_hypervisor.Text.{trim_space}

-- Two maps have the same entries. The order of the lists does not count: encoding/json sorts the keys.
abbrev pub SameEntries : {V : Type 0} → GoMap String V → GoMap String V → Type 0
SameEntries m n = (k : String) → get k m ≡ get k n

-- encoding/json at the type of a store's map. What it documents: a value that it encodes is decoded to
-- one that is alike, for a map one with the same entries; and its output is not blank.
pub record Codec (A : Type 0) (Alike : A → A → Type 0) : Type 0 where
  pub marshal : A → Option String
  pub unmarshal : String → Option A
  pub unmarshal-marshal :
      (a : A) (s : String) → marshal a ≡ some s → (b : A) × (unmarshal s ≡ some b) × Alike b a
  pub marshal_not_blank : (a : A) (s : String) → marshal a ≡ some s → trim_space s ≢ ""

pub data StoreError : Type 0 where
  mkdir_failed marshal_failed open_failed write_failed sync_failed close_failed : StoreError
  commit_failed stat_failed is_directory read_failed unmarshal_failed : StoreError

-- Which of the system calls of one Save succeed, and what a Write that fails leaves in the file.
pub record SaveCalls : Type 0 where
  pub mkdir : Bool
  pub open_tmp : Bool
  pub write : Bool
  pub partial : String
  pub sync : Bool
  pub close : Bool
  pub rename : Bool
  pub remove : Bool

-- The same of one Load: Stat (but for a file that is not there), and ReadFile.
pub record LoadCalls : Type 0 where
  pub stat : Bool
  pub is_dir : Bool
  pub read : Bool

-- The files by their paths.
abbrev pub Files : Type 0
Files = GoMap String String

unfoldable pub tmp_file : String → String
tmp_file path = path ++ ".tmp"

-- `_ = os.Remove(tmpFile)`
clean_up : SaveCalls → String → Files → Files
clean_up calls tmp files = if calls.remove then delete tmp files else files

-- The part of Save behind the encoding: create, write, sync, close and rename.
commit : SaveCalls → String → String → Files → Files × Option StoreError
unfolding clean_up tmp_file
commit calls path contents files =
    let tmp = tmp_file path in
    let written = put tmp contents files in
    if not calls.open_tmp
    then (files, some open_failed)
    else if not calls.write
    then (clean_up calls tmp (put tmp calls.partial files), some write_failed)
    else if not calls.sync
    then (clean_up calls tmp written, some sync_failed)
    else if not calls.close
    then (clean_up calls tmp written, some close_failed)
    else if not calls.rename
    then (clean_up calls tmp written, some commit_failed)
    else (put path contents (delete tmp written), none)

commit_encoded : SaveCalls → String → Option String → Files → Files × Option StoreError
unfolding commit
commit_encoded calls path none files = (files, some marshal_failed)
commit_encoded calls path (some contents) files = commit calls path contents files

pub data Loaded (A : Type 0) : Type 0 where
  loaded : A → Loaded A
  failed : StoreError → Loaded A

decoded : {A : Type 0} → Option A → Loaded A
decoded none = failed unmarshal_failed
decoded (some a) = loaded a

-- The codec of a store that keeps values under texts.
abbrev pub MapCodec : Type 0 → Type 0
MapCodec V = Codec (GoMap String V) SameEntries

module _ {A : Type 0} {Alike : A → A → Type 0} (codec : Codec A Alike) where
  unfoldable pub save : SaveCalls → String → A → Files → Files × Option StoreError
  unfolding commit_encoded
  save calls path a files =
      if not calls.mkdir
      then (files, some mkdir_failed)
      else commit_encoded calls path (codec.marshal a) files

  -- Load of a store that takes a file of size zero for no entries.
  load_file : LoadCalls → Option String → A → Loaded A
  unfolding decoded
  load_file calls none empty = loaded empty
  load_file calls (some contents) empty =
      if contents == ""
      then loaded empty
      else if not calls.read
      then failed read_failed
      else decoded (codec.unmarshal contents)

  unfoldable pub load : LoadCalls → String → A → Files → Loaded A
  unfolding load_file
  load calls path empty files =
      if not calls.stat then failed stat_failed else load_file calls (get path files) empty

  -- Load of the workload store: a directory is refused, and a blank file holds no entries.
  load_workload_file : LoadCalls → Option String → A → Loaded A
  unfolding decoded
  load_workload_file calls none empty = loaded empty
  load_workload_file calls (some contents) empty =
      if calls.is_dir
      then failed is_directory
      else if not calls.read
      then failed read_failed
      else if trim_space contents == ""
      then loaded empty
      else decoded (codec.unmarshal contents)

  unfoldable pub load_workloads : LoadCalls → String → A → Files → Loaded A
  unfolding load_workload_file
  load_workloads calls path empty files =
      if not calls.stat then failed stat_failed else load_workload_file calls (get path files) empty
