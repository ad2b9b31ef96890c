-- ===== src/Config/Filled.antt =====
-- What a configuration that was loaded has.
use pumpkin_pie.Prelude.{◌≡◌, refl, subst, String, false, ◌==◌, Bool-cases, inl, inr, arith}
use pumpkin_pie.Exec.{Result, ok, err}
use pumpkin_pie.Config.{
  File, missing, unreadable, contains, or_default, applied, load_file, MasterConfig,
  master_default_path, master_defaults, apply_master_defaults, load_master_config,
}

or_default-filled :
    (default s : String) → (default == "") ≡ false → (or_default default s == "") ≡ false
unfolding or_default
or_default-filled default s h = elim (Bool-cases (s == "")) [ inl e ↦ rw e h | inr e ↦ rw e e ]

or_default_idem :
    (default s : String) → or_default default (or_default default s) ≡ or_default default s
unfolding or_default
or_default_idem default s = elim (Bool-cases (s == "")) [
  | inr e ↦ rw (e, e) refl
  | inl e ↦ elim (Bool-cases (default == "")) [ inl f ↦ rw (e, f) refl | inr f ↦ rw (e, f) refl ]
]

-- The settings that a master cannot run without.
abbrev pub IsFilled : MasterConfig → Type 0
IsFilled c =
    ((c.http == "") ≡ false)
    × ((c.grpc == "") ≡ false)
    × ((c.db == "") ≡ false)
    × ((c.database == "") ≡ false)
    × ((c.table == "") ≡ false)

apply_master_defaults-IsFilled : (c : MasterConfig) → IsFilled (apply_master_defaults c)
unfolding apply_master_defaults
apply_master_defaults-IsFilled c = (
  or_default-filled ":8080" c.http refl,
  or_default-filled ":7000" c.grpc refl,
  or_default-filled "pumpkinpie.db" c.db refl,
  or_default-filled "public" c.database refl,
  or_default-filled "node_metrics" c.table refl,
)

ok_inj : (a b : MasterConfig) → ◌≡◌ {A = Result String MasterConfig} (ok a) (ok b) → a ≡ b
ok_inj a b e = ground (arith, e)

applied-IsFilled :
    (path : String) (r : Result String MasterConfig) (c : MasterConfig)
    → (applied apply_master_defaults path r).0 ≡ ok c
    → IsFilled c
unfolding applied
applied-IsFilled path (ok d) c h =
    subst IsFilled (ok_inj (apply_master_defaults d) c h) (apply_master_defaults-IsFilled d)
applied-IsFilled path (err why) c h = absurd (ground (arith, h))

by_file :
    (decode : String → MasterConfig → Result String MasterConfig) (path : String) (f : File)
    (c : MasterConfig)
    → (load_file decode apply_master_defaults master_defaults path f).0 ≡ ok c
    → IsFilled c
unfolding load_file
by_file decode path missing c h =
    subst IsFilled (ok_inj master_defaults c h) (refl, refl, refl, refl, refl)
by_file decode path (unreadable why) c h = absurd (ground (arith, h))
by_file decode path (contains text) c h = applied-IsFilled path (decode text master_defaults) c h

-- A configuration that the master loads, from a file that is not there, is partial or has blank
-- fields, has every address, the database and the names of the metrics table filled in.
pub load_master_config-IsFilled :
    (decode : String → MasterConfig → Result String MasterConfig) (disk : String → File)
    (given : String) (c : MasterConfig)
    → (load_master_config decode disk given).0 ≡ ok c
    → IsFilled c
unfolding load_master_config
load_master_config-IsFilled decode disk given c h =
    let path = or_default master_default_path given in by_file decode path (disk path) c h
