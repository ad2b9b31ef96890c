-- ===== src/Identity.antt =====
-- internal/agent/identity/identity.go: the file with the id of a machine.
use pumpkin_pie.Prelude.{
  ◌≡◌, refl, ◌∙◌, ap, ℕ, ◌+◌, ◌-◌, String, ◌<>◌, Bool, true, false, ◌==◌, Option, none, some, List,
  [], ◌∷◌, if◌then◌else◌, Bool-cases, inl, inr, arith,
}
use pumpkin_pie.Exec.{Result, ok, err, Exec, continue}
pub mod Again
pub mod Failing

-- The state directory: the content of the file, how many temporary files are there, and the oracle of
-- the failures of the next calls of the operating system and of crypto/rand.
pub record Dir : Type 0 where
  pub content : Option String
  pub temps : ℕ
  pub faults : List (Option String)

unfoldable pub outcome : String → Option String → List (Option String) → Exec Dir String Unit
outcome label none rest s = (ok tt, record s { faults = rest })
outcome label (some why) rest s = (err (label <> why), record s { faults = rest })

-- A call of the system that may fail, its error wrapped.
unfoldable pub call : String → Exec Dir String Unit
unfolding outcome
call label s = elim s.faults [ [] ↦ outcome label none [] s | f ∷ fs ↦ outcome label f fs s ]

unfoldable pub left : Dir → Dir
left s = record s { temps = s.temps + 1 }

unfoldable pub removed : Dir → Dir
removed s = record s { temps = s.temps - 1 }

-- What is left after os.Remove, whose error is dropped.
unfoldable pub after_remove : Result String Unit → Dir → Dir
unfolding removed
after_remove (ok done) s = removed s
after_remove (err why) s = s

-- cleanup
unfoldable pub clean_up_temp : Dir → Dir
unfolding call after_remove
clean_up_temp s = let (r, s') = call "remove temp: " s in after_remove r s'

-- A step after which an error removes the temporary file.
unfoldable pub or_clean : Result String Unit → Exec Dir String Unit → Exec Dir String Unit
unfolding clean_up_temp
or_clean (ok done) next s = next s
or_clean (err why) next s = (err why, clean_up_temp s)

unfoldable pub renamed : String → Dir → Dir
renamed content s = record s { content = some (content <> "\n"); temps = s.temps - 1 }

unfoldable pub rename : String → String → Exec Dir String Unit
unfolding call or_clean renamed
rename path content s =
    let (r, s') = call ("rename to " <> path <> ": ") s in
    or_clean r (λ s. (ok tt, renamed content s)) s'

unfoldable pub close_temp : String → String → Exec Dir String Unit
unfolding call or_clean rename
close_temp path content s =
    let (r, s') = call "close temp: " s in or_clean r (rename path content) s'

unfoldable pub chmod_temp : String → String → Exec Dir String Unit
unfolding call or_clean close_temp
chmod_temp path content s =
    let (r, s') = call "chmod temp: " s in or_clean r (close_temp path content) s'

unfoldable pub write_temp : String → String → Exec Dir String Unit
unfolding call or_clean chmod_temp
write_temp path content s =
    let (r, s') = call "write temp: " s in or_clean r (chmod_temp path content) s'

unfoldable pub write_atomic : String → String → Exec Dir String Unit
unfolding call left write_temp
write_atomic path content s =
    let (r, s') = call "create temp: " s in
    continue r (λ _. λ t. write_temp path content (left t)) s'

-- The return of the id, after writeAtomic.
unfoldable pub written : String → Result String Unit → Exec Dir String String
written id (ok done) s = (ok id, s)
written id (err why) s = (err why, s)

unfoldable pub save : String → String → Exec Dir String String
unfolding written write_atomic
save path id s = let (r, s') = write_atomic path id s in written id r s'

-- generate, and what follows it; `random` is the hex text of 8 bytes of crypto/rand
unfoldable pub generated : String → Result String String → Exec Dir String String
unfolding save
generated path (err why) s = (err ("rand: " <> why), s)
generated path (ok id) s = save path id s

unfoldable pub on_content :
    (String → String) → String → Result String String → Option String → Exec Dir String String
unfolding generated
on_content trim path random none s = generated path random s
on_content trim path random (some b) s =
    if trim b == "" then generated path random s else (ok (trim b), s)

-- Load; `trim` is strings.TrimSpace, and a read of a file that is not there is no failure
unfoldable pub load : (String → String) → Result String String → String → Exec Dir String String
unfolding call on_content
load trim random state_dir s =
    let path = state_dir <> "/machine-id" in
    let (made, s₁) = call ("mkdir " <> state_dir <> ": ") s in
    if state_dir == ""
    then (err "state dir is empty", s)
    else continue made
        (λ _. λ t.
          let (readable, s₂) = call ("read " <> path <> ": ") t in
          continue readable (λ _. on_content trim path random s₂.content) s₂)
        s₁
