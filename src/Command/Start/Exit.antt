-- ===== src/Command/Start/Exit.antt =====
-- cmd/kubegate/serve.go, `run`, from the listener to its return, and main.go, `main`.
use kubegate.Prelude.{
  ℕ, String, Bool, true, false, Option, none, some, List, ◌≡◌, ◌⊎◌, ◌↔◌, inl, inr, refl, sym, subst,
  arith,
}
use kubegate.Server.Disk.{Disk}
use kubegate.Command.Start.{
  Environment, Listening, StartError, Started, listening, stopped, real_main,
}

-- What comes first: the return of `ListenAndServeTLS`, with the error that says that the server was closed
-- or with another, or a signal, and whether the `Shutdown` that it leads to succeeds in its ten seconds.
pub data Event : Type 0 where
  server_closed serve_failed : Event
  signalled : Bool → Event

pub data RunError : Type 0 where
  start_failed : StartError → RunError
  not_served not_shut_down : RunError

-- The select at the end of `run`.
abbrev pub ended : Event → Option RunError
ended server_closed = none
ended serve_failed = some not_served
ended (signalled true) = none
ended (signalled false) = some not_shut_down

abbrev pub returned : (Listening → Event) → Started → Option RunError
returned event (stopped e) = some (start_failed e)
returned event (listening l) = ended (event l)

abbrev pub status : Option RunError → ℕ
status none = 0
status (some e) = 1

-- `main`, with what ends the serving: the exit status, and the disk.
unfoldable pub main : Environment → (Listening → Event) → List String → Disk → ℕ × Disk
main env event args d = let r = real_main env args d in (status (returned event r.0), r.1)

-- The end of a run that is no error.
abbrev pub EndsWell : Event → Type 0
EndsWell e = (e ≡ server_closed) ⊎ (e ≡ signalled true)

ended_iff : (e : Event) → (status (ended e) ≡ 0) ↔ EndsWell e
ended_iff server_closed = (λ h. inl refl, λ h. refl)
ended_iff serve_failed = (λ h. absurd (omega arith), λ h. elim h [ inl e ↦ cc e | inr e ↦ cc e ])
ended_iff (signalled true) = (λ h. inr refl, λ h. refl)
ended_iff (signalled false) =
    (λ h. absurd (omega arith), λ h. elim h [ inl e ↦ cc e | inr e ↦ cc e ])

listening-inj : {k l : Listening} → listening k ≡ listening l → k ≡ l
listening-inj h = cc h

returned_iff :
    (event : Listening → Event) (r : Started)
    → (status (returned event r) ≡ 0) ↔ ((l : Listening) × (r ≡ listening l) × EndsWell (event l))
returned_iff event (stopped e) = (λ h. absurd (omega arith), λ (l, h, w). cc h)
returned_iff event (listening l) = (
  λ h. (l, refl, (ended_iff (event l)).0 h),
  λ (k, h, w). (ended_iff (event l)).1 (subst (λ x. EndsWell (event x)) (sym (listening-inj h)) w),
)

-- The program exits with the status 0 exactly where it comes to listen, and the server is closed or is
-- shut down in time after a signal.
pub main_iff :
    (env : Environment) (event : Listening → Event) (args : List String) (d : Disk)
    → ((main env event args d).0 ≡ 0)
      ↔ ((l : Listening) × ((real_main env args d).0 ≡ listening l) × EndsWell (event l))
unfolding main
main_iff env event args d = returned_iff event (real_main env args d).0
