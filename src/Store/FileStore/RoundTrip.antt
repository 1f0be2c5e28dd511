-- ===== src/Store/FileStore/RoundTrip.antt =====
-- What Load makes of what Save wrote.
use mystic_hypervisor.Prelude.Maps.{GoMap, get}
use mystic_hypervisor.Prelude.{
  ◌≡◌, ◌≢◌, refl, ap, true, false, String, Option, none, some, arith, string_eq, ==_ne,
  Option-cases, inl, inr,
}
use mystic_hypervisor.Text.{trim_space}
use mystic_hypervisor.Store.FileStore.{
  MapCodec, SameEntries, StoreError, SaveCalls, LoadCalls, Files, Loaded, loaded, commit_encoded,
  save, load, load_file, load_workloads, load_workload_file,
}
use mystic_hypervisor.Store.FileStore.Atomic.{save-held}

-- All calls of a Load succeed, and the path is no directory.
abbrev pub readable : LoadCalls
readable = record { stat = true; is_dir = false; read = true }

-- A Load has yielded a map with the entries of the given one.
abbrev pub HasLoaded : {V : Type 0} → GoMap String V → Loaded (GoMap String V) → Type 0
HasLoaded {V} m result = (n : GoMap String V) × (result ≡ loaded n) × SameEntries n m

-- What a Load yields after a Save that ended in `e`: the entries that were saved, or else what it
-- yielded before.
abbrev pub Yields :
    {V : Type 0}
    → Option StoreError
    → Loaded (GoMap String V)
    → GoMap String V
    → Loaded (GoMap String V)
    → Type 0
Yields none old m result = HasLoaded m result
Yields (some e) old m result = result ≡ old

-- A blank text is not an encoding.
not_empty : (s : String) → trim_space s ≢ "" → s ≢ ""
unfolding trim_space
not_empty s h e = h (ap trim_space e)

module _ {V : Type 0} (codec : MapCodec V) (empty a : GoMap String V) where
  -- A Save without an error has encoded the value.
  encoded :
      (calls : SaveCalls) (path : String) (files : Files)
      → (save codec calls path a files).1 ≡ none
      → (s : String) × (codec.marshal a ≡ some s)
  unfolding save commit_encoded
  encoded calls path files h = elim (Option-cases (codec.marshal a)) [
    | inl e ↦ absurd (not_encoded e h)
    | inr (s, e) ↦ (s, e)
  ]
    where
      not_encoded : codec.marshal a ≡ none → (save codec calls path a files).1 ≢ none
      not_encoded e = rw (e, save, commit_encoded) (ground arith)

  load_encoded :
      (s : String)
      → codec.marshal a ≡ some s
      → HasLoaded a (load_file codec readable (some s) empty)
  unfolding load_file
  load_encoded s e =
      let (b, decodes, same) = codec.unmarshal-marshal a s e in
      (b, rw (==_ne s "" (not_empty s (codec.marshal_not_blank a s e)), decodes) refl, same)

  load_workloads_encoded :
      (s : String)
      → codec.marshal a ≡ some s
      → HasLoaded a (load_workload_file codec readable (some s) empty)
  unfolding load_workload_file
  load_workloads_encoded s e =
      let (b, decodes, same) = codec.unmarshal-marshal a s e in
      (b, rw (==_ne (trim_space s) "" (codec.marshal_not_blank a s e), decodes) refl, same)

  module _ (calls : SaveCalls) (path : String) (files : Files) where
    -- A Load after a Save of a map yields a map with the same entries if Save returned no error, and
    -- otherwise what it would have yielded without the Save.
    pub load-save :
        Yields
          (save codec calls path a files).1
          (load codec readable path empty files)
          a
          (load codec readable path empty (save codec calls path a files).0)
    unfolding load
    load-save = go (save codec calls path a files).1 refl
      where
        go :
            (e : Option StoreError)
            → (save codec calls path a files).1 ≡ e
            → Yields e
                (load_file codec readable (get path files) empty)
                a
                (load_file codec readable (get path (save codec calls path a files).0) empty)
        go none h =
            let (s, m) = encoded calls path files h in
            rw (save-held calls path files codec a, h, m) (load_encoded s m)
        go (some x) h = rw (save-held calls path files codec a, h)

    -- A Load of the workload store after a Save of a map yields a map with the same entries if Save
    -- returned no error, and otherwise what it would have yielded without the Save.
    pub load_workloads-save :
        Yields
          (save codec calls path a files).1
          (load_workloads codec readable path empty files)
          a
          (load_workloads codec readable path empty (save codec calls path a files).0)
    unfolding load_workloads
    load_workloads-save = go (save codec calls path a files).1 refl
      where
        go :
            (e : Option StoreError)
            → (save codec calls path a files).1 ≡ e
            → Yields e (load_workload_file codec readable (get path files) empty) a (
                load_workload_file codec readable
                  (get path (save codec calls path a files).0)
                  empty)
        go none h =
            let (s, m) = encoded calls path files h in
            rw (save-held calls path files codec a, h, m) (load_workloads_encoded s m)
        go (some x) h = rw (save-held calls path files codec a, h)
