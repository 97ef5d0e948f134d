-- ===== src/Must/Tests.antt =====
-- A call that goes well, with a message for the case that it does not.
use stdgo.Base.{[], ◌∷◌, none, ◌≡◌, ◌↔◌}
use stdgo.Go.Outcome.{returned}
use stdgo.Must.{Fmt, text, nil, must1}
use stdgo.Must.Laws.{Succeeds, must1_lem}

abbrev fmt : Fmt
fmt = record { plus_v = λ _. "%+v"; sprintf = λ format _. format }

must1_ok : (must1 fmt tt nil (text "read" ∷ []) ≡ returned tt none) ↔ Succeeds nil
must1_ok = must1_lem fmt tt nil (text "read" ∷ [])
