-- ===== src/Rpc/Registry/Store/Tests.antt =====
-- A session that is counted for, ended, and then missing.
use aptp.Prelude.{◌≡◌, refl, none, List, [], ◌∷◌}
use aptp.Float.{Fixed}
use aptp.Error.{internal}
use aptp.Rpc.Registry.{default}
use aptp.Rpc.Registry.Store.{registry}
use aptp.Rpc.Registry.Store.Agree.{
  Use, open_one, count_one, end_one, opened, counted, ended, refused, answers, specification,
  registry-refines,
}

abbrev uses : List Use
uses =
    open_one "s-1" none "a" none
    ∷ count_one "s-1"
    ∷ count_one "s-2"
    ∷ end_one "s-1"
    ∷ count_one "s-1"
    ∷ []

answered :
    answers (registry {F = Fixed}) uses default
    ≡ opened "s-1"
      ∷ counted
      ∷ refused (internal "unknown session: s-2")
      ∷ ended 1
      ∷ refused (internal "unknown session: s-1")
      ∷ []
unfolding aptp.Rpc.Registry.open_session aptp.Rpc.Registry.increment aptp.Rpc.Registry.drain
    aptp.Rpc.Registry.find
answered = refl

registry-refines_example :
    answers (registry {F = Fixed}) uses default
    ≡ answers (specification {F = Fixed}) uses (λ k. none)
registry-refines_example = registry-refines Fixed uses
