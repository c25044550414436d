-- ===== src/Link/Session/Kept.antt =====
-- The moves of a session keep its invariant.
use cs451_2020_project.Base.{ℕ, sym, subst}
use cs451_2020_project.Link.Session.View.{
  View, Move, sends, schedules, notes, gives_up, repeats, idles, gets_ack, gets_old, gets_new,
}
use cs451_2020_project.Link.Session.Both.{IsSession}
use cs451_2020_project.Link.Session.Sending.{sends-kept, schedules-kept}
use cs451_2020_project.Link.Session.Working.{notes-kept, gives_up-kept, repeats-kept}
use cs451_2020_project.Link.Session.Arriving.{gets_ack-kept, gets_old-kept, gets_new-kept}

pub Move-kept : (a b : ℕ) (v w v' : View) → IsSession a b v w → Move a v w v' → IsSession a b v' w
Move-kept a b v w v' s (sends m to number from small e) =
    subst (λ x. IsSession a b x w) (sym e) (sends-kept a b v w s m to number from small)
Move-kept a b v w v' s (schedules m rest t q syn e) =
    subst (λ x. IsSession a b x w) (sym e) (schedules-kept a b v w s m rest t q syn)
Move-kept a b v w v' s (notes m rest q ack e) =
    subst (λ x. IsSession a b x w) (sym e) (notes-kept a b v w s m rest q ack)
Move-kept a b v w v' s (gives_up x es q acked e) =
    subst (λ x. IsSession a b x w) (sym e) (gives_up-kept a b v w s x es q acked)
Move-kept a b v w v' s (repeats x es to t q e) =
    subst (λ x. IsSession a b x w) (sym e) (repeats-kept a b v w s x es to t q)
Move-kept a b v w v' s (idles e) = subst (λ x. IsSession a b x w) (sym e) s
Move-kept a b v w v' s (gets_ack i from m here ack e) =
    subst (λ x. IsSession a b x w) (sym e) (gets_ack-kept a b v w s i from m here ack)
Move-kept a b v w v' s (gets_old i from to m here syn old e) =
    subst (λ x. IsSession a b x w) (sym e) (gets_old-kept a b v w s i from m here to old)
Move-kept a b v w v' s (gets_new i from to m here syn new e) =
    subst (λ x. IsSession a b x w) (sym e) (gets_new-kept a b v w s i from m here syn new to)

-- The other side moves.
pub IsSession-flip : (a b : ℕ) (v w : View) → IsSession a b v w → IsSession b a w v
IsSession-flip a b v w s = record { near = s.far; far = s.near; out = s.back; back = s.out }
