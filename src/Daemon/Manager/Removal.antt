-- ===== src/Daemon/Manager/Removal.antt =====
-- pkg/daemon/manager/manager.go: the manager as the one that the removal of services works with.
use mathlib.Core.Option
use windows_machine_config_o.Common.{
  ℕ, String, ◌≡◌, refl, ap, ◌∙◌, inl, inr, ◌⊎◌, map, subst, [], Bool, true, false, Option, none,
  some, List, In, ok, err, arith, Option-cases, Result-cases,
}
use windows_machine_config_o.Common.Actions.{Action, bind-ok, acts, Keeps, ◌>>=◌}
use windows_machine_config_o.ServicesCm.Types.{Service}
use windows_machine_config_o.Daemon.Cleanup.{Manager, remove_services, put_items, merge}
use windows_machine_config_o.Daemon.Cleanup.Merged.{merge-In}
use windows_machine_config_o.Daemon.Cleanup.Removal.{ManagerLaws, remove_services-gone}
use windows_machine_config_o.Daemon.Manager.{
  WindowsApi, ServiceError, Opening, Config, delete_error, stopped, opened, does_not_exist,
  not_opened, ensure_service_state, delete_service, get_services,
}
use windows_machine_config_o.Daemon.Manager.States.{
  StableLaws, SameServices, opening-cases, ensure_service_state-Keeps,
}

-- What Windows documents of the calls that the removal makes.
pub record RemovalLaws (w : WindowsApi) (laws : StableLaws w) : Type 0 where
  pub all_listed :
      (s : w.State) (names : List String) (n : String)
      → w.list_services s ≡ some names
      → laws.installed s n ≡ true
      → In n names
  pub not_installed :
      (n : String) (s : w.State) → w.open_service n s ≡ does_not_exist → laws.installed s n ≡ false
  pub deleted :
      (k : String) (s : w.State)
      → (w.delete k s).1 ≡ true
      → laws.installed (w.delete k s).0 k ≡ false
  -- A deletion installs nothing, and what it leaves is as before.
  pub was_installed :
      (k n : String) (s : w.State)
      → laws.installed s n ≡ false
      → laws.installed (w.delete k s).0 n ≡ false
  pub left_as_before :
      (k n : String) (s : w.State)
      → laws.installed (w.delete k s).0 n ≡ true
      → (w.config n (w.delete k s).0 ≡ w.config n s)
        × (w.open_service n (w.delete k s).0 ≡ w.open_service n s)

module _ (w : WindowsApi) (fuel : ℕ) where
  -- The description in the configuration of the service once it is opened.
  abbrev described : Opening → Option Config → Option String
  described opened config = Option.map (λ c. c.description) config
  described does_not_exist config = none
  described not_opened config = none

  abbrev pub windows_manager : Manager
  windows_manager = record {
    State = w.State;
    get_services = get_services w;
    get_description = λ n s. described (w.open_service n s) (w.config n s);
    delete_service = λ n s. (
      (delete_service w fuel n s).0,
      elim (delete_service w fuel n s).1 [ ok _ ↦ true | err _ ↦ false ],
    );
  }

  module _ (laws : StableLaws w) (removal : RemovalLaws w laws) where
    open laws use {installed}

    abbrev stop : String → Action w.State ServiceError (Unit {0})
    stop k = ensure_service_state w fuel k stopped

    stopped_same : (k : String) (s : w.State) → SameServices w installed s (stop k s).0
    unfolding Keeps
    stopped_same k s = ensure_service_state-Keeps w laws fuel k stopped s

    -- The state behind DeleteService is the old one, that behind the stop, or that behind the deletion too.
    delete_service-cases :
        (k : String) (s : w.State)
        → ((delete_service w fuel k s).0 ≡ s)
          ⊎ (((delete_service w fuel k s).0 ≡ (stop k s).0)
              ⊎ ((delete_service w fuel k s).0 ≡ (w.delete k (stop k s).0).0))
    unfolding delete_service acts ◌>>=◌
    delete_service-cases k s = elim (opening-cases (w.open_service k s)) [
      | inl e ↦ inl (rw (e, delete_service) refl)
      | inr (inl e) ↦ inl (rw (e, delete_service) refl)
      | inr (inr e) ↦ elim (Result-cases (stop k s).1) [
        | inl (_, h) ↦ inr (inr (rw (e, delete_service, ◌>>=◌, h) refl))
        | inr (_, h) ↦ inr (inl (rw (e, delete_service, ◌>>=◌, h) refl))
      ]
    ]

    stays_absent :
        (k n : String) (s : w.State)
        → installed s n ≡ false
        → installed (delete_service w fuel k s).0 n ≡ false
    stays_absent k n s h =
        let after : installed (stop k s).0 n ≡ false = (stopped_same k s).same_installed n ∙ h in
        elim (delete_service-cases k s) [
          | inl e ↦ rw e h
          | inr (inl e) ↦ rw e after
          | inr (inr e) ↦ rw e (removal.was_installed k n _ after)
        ]

    stays_described :
        (k n : String) (s : w.State)
        → installed (delete_service w fuel k s).0 n ≡ true
        → described
            (w.open_service n (delete_service w fuel k s).0)
            (w.config n (delete_service w fuel k s).0)
          ≡ described (w.open_service n s) (w.config n s)
    stays_described k n s h =
        let same = stopped_same k s in
        let after : described (w.open_service n (stop k s).0) (w.config n (stop k s).0)
            ≡ described (w.open_service n s) (w.config n s) =
          ap (λ o. described o (w.config n (stop k s).0)) (same.same_opening n)
          ∙ ap (described (w.open_service n s)) (same.same_config n) in
        elim (delete_service-cases k s) [
          | inl e ↦ rw e refl
          | inr (inl e) ↦ rw e after
          | inr (inr e) ↦
              let (config, opening) = removal.left_as_before k n (stop k s).0 (rw e at h) in
              rw e (
                ap (λ o. described o (w.config n (w.delete k (stop k s).0).0)) opening
                ∙ ap (described (w.open_service n (stop k s).0)) config
                ∙ after)
        ]

    -- Behind a DeleteService that reports no error the service is not installed.
    pub delete_service-absent :
        (k : String) (s : w.State)
        → (delete_service w fuel k s).1 ≡ ok tt
        → installed (delete_service w fuel k s).0 k ≡ false
    unfolding delete_service acts
    delete_service-absent k s done = elim (opening-cases (w.open_service k s)) [
      | inl e ↦ rw (e, delete_service) (removal.not_installed k s e)
      | inr (inl e) ↦ absurd (ground (arith, rw (e, delete_service) at done))
      | inr (inr e) ↦
          let (_, stops, deletes, last) =
            bind-ok (stop k) (λ _. acts delete_error (w.delete k)) s tt
              (rw (e, delete_service) at done) in
          rw (e, delete_service, last) (removal.deleted k (stop k s).0 (ground (arith, deletes)))
    ]

    pub deleted_ok :
        (k : String) (s : w.State)
        → (windows_manager.delete_service k s).1 ≡ true
        → (delete_service w fuel k s).1 ≡ ok tt
    deleted_ok k s h = ground (arith, h)

    get_services-listed :
        (s : w.State) (names : List String) (n : String)
        → get_services w s ≡ some names
        → installed s n ≡ true
        → In n names
    unfolding get_services merge put_items
    get_services-listed s names n e present = elim (Option-cases (w.list_services s)) [
      | inl h ↦ absurd (ground (arith, rw (h, get_services) at e))
      | inr (raw, h) ↦
          let same : merge raw [] ≡ names = ground (arith, rw (h, get_services) at e) in
          subst (In n) same ((merge-In raw [] n).1.1 (inl (removal.all_listed s raw n h present)))
    ]

    abbrev windows_manager_laws : ManagerLaws windows_manager
    windows_manager_laws = record {
      present = installed;
      listed = get_services-listed;
      deleted = λ k s h. delete_service-absent k s (deleted_ok k s h);
      stays_absent = stays_absent;
      stays_described = stays_described;
    }

    -- The removal on top of Windows: if removeServices reports no error, none of the services given to it
    -- is installed.
    pub remove_services-windows_manager :
        (services : List Service) (remove_all_tagged : Bool) (s : w.State) (n : String)
        → (remove_services windows_manager services remove_all_tagged s).1 ≡ ok tt
        → In n (map (λ v. v.name) services)
        → installed (remove_services windows_manager services remove_all_tagged s).0 n ≡ false
    remove_services-windows_manager = remove_services-gone windows_manager windows_manager_laws
