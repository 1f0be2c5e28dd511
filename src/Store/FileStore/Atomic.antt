-- ===== src/Store/FileStore/Atomic.antt =====
-- What a Save does to the files, whichever of its system calls fail.
use Prim.Native.String.{count}
use text.Mathlib.TextLemmas.{length-append}
use mystic_hypervisor.Prelude.Maps.{get, put, delete, get-put_self, get-put_ne, get-delete_ne}
use mystic_hypervisor.Prelude.{
  ◌≡◌, ◌≢◌, refl, ap, inl, inr, String, Option, none, some, arith, string_eq, Bool-cases,
  Option-cases, ◌∙◌,
}
use mystic_hypervisor.Store.FileStore.{
  Codec, StoreError, SaveCalls, Files, tmp_file, commit, commit_encoded, save, clean_up,
}

-- The temporary file is another one.
pub tmp_file-ne : (path : String) → tmp_file path ≢ path
unfolding tmp_file
tmp_file-ne path e = absurd (omega (arith, ap count e, length-append path ".tmp", four))
  where
    four : count ".tmp" ≡ 4
    four = refl

-- What the file holds after a Save that ended in `e`: the new contents, or else the old.
abbrev pub held : Option StoreError → Option String → Option String → Option String
held none old new = new
held (some e) old new = old

module _ (calls : SaveCalls) (path : String) (files : Files) where
  -- Whatever goes to the temporary file leaves the file as it was.
  get-clean_up :
      (s q : String)
      → tmp_file path ≢ q
      → get q (clean_up calls (tmp_file path) (put (tmp_file path) s files)) ≡ get q files
  unfolding clean_up
  get-clean_up s q h = elim (Bool-cases calls.remove) [
    | inl p ↦ rw p (get-delete_ne _ q _ h ∙ get-put_ne _ q s files h)
    | inr p ↦ rw p (get-put_ne _ q s files h)
  ]

  commit-held :
      (s : String)
      → get path (commit calls path s files).0
        ≡ held (commit calls path s files).1 (get path files) (some s)
  unfolding commit
  commit-held s = ground (
    arith,
    get-clean_up s path (tmp_file-ne path),
    get-clean_up calls.partial path (tmp_file-ne path),
    get-put_self path s (delete (tmp_file path) (put (tmp_file path) s files)),
  )

  commit_others :
      (s q : String)
      → tmp_file path ≢ q
      → path ≢ q
      → get q (commit calls path s files).0 ≡ get q files
  unfolding commit
  commit_others s q h k = ground (
    arith,
    get-clean_up s q h,
    get-clean_up calls.partial q h,
    get-put_ne path q s (delete (tmp_file path) (put (tmp_file path) s files)) k,
    get-delete_ne (tmp_file path) q (put (tmp_file path) s files) h,
    get-put_ne (tmp_file path) q s files h,
  )

  module _ {A : Type 0} {Alike : A → A → Type 0} (codec : Codec A Alike) (a : A) where
    -- A Save is atomic: whichever calls fail, the file holds the new encoding if Save returned no
    -- error, and exactly what it held before if Save returned one.
    pub save-held :
        get path (save codec calls path a files).0
        ≡ held (save codec calls path a files).1 (get path files) (codec.marshal a)
    unfolding save commit_encoded
    save-held = elim (Option-cases (codec.marshal a)) [
      | inl e ↦ rw e (ground arith)
      | inr (s, e) ↦ rw e (ground (arith, commit-held s))
    ]

    -- A Save touches no file but its own and the temporary one.
    pub save_others :
        (q : String)
        → tmp_file path ≢ q
        → path ≢ q
        → get q (save codec calls path a files).0 ≡ get q files
    unfolding save commit_encoded
    save_others q h k = elim (Option-cases (codec.marshal a)) [
      | inl e ↦ rw e (ground arith)
      | inr (s, e) ↦ rw e (ground (arith, commit_others s q h k))
    ]
