-- ===== src/Daemon/Distinct.antt =====
-- buildServices of daemon.go: the map that it makes has every name once.
use gopherd.Config.{Config}
use gopherd.Daemon.Build.{
  Target, Built, attach_all, effective, made_or, install, build_from, build_services,
}
use gopherd.Daemon.Preserve.{IsDistinct}
use gopherd.Metrics.{Metrics}
use gopherd.Prelude.Int.{ℤ}
use gopherd.Prelude.Maps.{Map, lookup, insert, lookup-insert}
use gopherd.Prelude.Outcome.{Yields, Yields-from}
use gopherd.Prelude.{
  Text, ◌==◌, ==→eq, Option, List, [], ◌∷◌, ◌≡◌, refl, sym, ◌∙◌, arith, Bool-cases, inl, inr, eq→==,
  false,
}
use gopherd.Service.New.{NewService, new}
use gopherd.Service.Process.{Process}

differ_back : (a b : Text) → (a == b) ≡ false → (b == a) ≡ false
differ_back a b h = elim (Bool-cases (b == a)) [
  | inl same ↦ absurd (ground (arith, h, eq→== a b (sym (==→eq b a same))))
  | inr differ ↦ differ
]

insert-IsDistinct :
    (k : Text) (s : NewService) (m : Map NewService) → IsDistinct m → IsDistinct (insert k s m)
unfolding insert lookup
insert-IsDistinct k s [] h = (refl, tt)
insert-IsDistinct k s ((n, t) ∷ m) (once, h) = elim (Bool-cases (n == k)) [
  | inl same ↦ rw (same) (once, h)
  | inr differ ↦
      rw (differ)
        (lookup-insert k n s m ∙ rw (differ_back n k differ) once, insert-IsDistinct k s m h)
]

build_from-IsDistinct :
    (dur : Text → Option ℤ) (entrypoint : List Text) (prefix : Text) (ts : List Target)
    (ps : List Process) (b : Built)
    → IsDistinct b.services
    → Yields (λ c. IsDistinct c.services) (build_from dur entrypoint prefix ts ps b)
unfolding build_from
build_from-IsDistinct dur entrypoint prefix ts [] b h = h
build_from-IsDistinct dur entrypoint prefix ts (p ∷ ps) b h =
    Yields-from (λ c. IsDistinct c.services)
      (made_or (new dur (effective entrypoint prefix p) prefix))
      (λ s. build_from dur entrypoint prefix ts ps (install ts b s))
      λ s e.
        build_from-IsDistinct dur entrypoint prefix ts ps (install ts b s)
          (insert-IsDistinct s.name (attach_all ts s) b.services h)

-- The services that buildServices makes have different names.
pub build_services-IsDistinct :
    (parse_duration : Text → Option ℤ) (entrypoint_args : List Text) (ts : List Target) (c : Config)
    (m : Metrics)
    → Yields (λ b. IsDistinct b.services) (build_services parse_duration entrypoint_args ts c m)
unfolding build_services
build_services-IsDistinct dur entrypoint ts c m =
    build_from-IsDistinct dur entrypoint c.prefix ts c.processes _ tt
