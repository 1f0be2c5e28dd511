-- ===== src/Store.antt =====
-- The persistent stores. A manager talks to its store through Save and Load; the file stores, which
-- are one program at six types, are in `FileStore`.
pub mod FileStore
pub mod Registry
use mystic_hypervisor.Prelude.Maps.{GoMap}
use mystic_hypervisor.Prelude.{Bool, true, false, String, Option, none, some, ◌≡◌, refl}

-- What a manager sees of its store: `none` if it was given none, else what the last successful Save
-- wrote. A Save that fails leaves that as it was.
abbrev pub Store : Type 0 → Type 0
Store V = Option (GoMap String V)

-- A manager's saveStoreUnlocked, where the environment says whether Save succeeds. With no store
-- there is nothing to fail.
abbrev pub save : {V : Type 0} → Bool → GoMap String V → Store V → Store V
save ok m none = none
save true m (some d) = some m
save false m (some d) = some d

-- Whether saveStoreUnlocked returns no error.
abbrev pub saves : {V : Type 0} → Bool → Store V → Bool
saves ok none = true
saves ok (some d) = ok

-- A save that returns no error is one that succeeds, and any other writes nothing.
pub save_of_saves :
    {V : Type 0} (ok : Bool) (m : GoMap String V) (s : Store V)
    → saves ok s ≡ true
    → save ok m s ≡ save true m s
save_of_saves ok m none h = refl
save_of_saves true m (some d) h = refl
save_of_saves false m (some d) h = cc

pub save_of_fails :
    {V : Type 0} (ok : Bool) (m : GoMap String V) (s : Store V)
    → saves ok s ≡ false
    → save ok m s ≡ s
save_of_fails ok m none h = cc
save_of_fails true m (some d) h = cc
save_of_fails false m (some d) h = refl
