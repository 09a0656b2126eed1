-- ===== src/Session/Reach.antt =====
-- The tables that histories of session calls reach.
use lakira_backend.Store.{World}
use lakira_backend.Session.RefreshTokens.{Tokens}
use lakira_backend.Session.Inputs.{SessionPorts}
use lakira_backend.Session.Rotation.{tokens}
use lakira_backend.Session.Changes.{IsSound, Change-IsSound}
use lakira_backend.Session.Steps.{
  SessionStep, rotating, signing_out, switching, signing_in, SessionReach, here, next, Changes,
  none_yet, and_then, rotate-Changes, sign_out-Changes,
}
use lakira_backend.Session.Switching.{switch-Changes}
use lakira_backend.Session.SigningIn.{login-Changes}

-- Whatever a call is, it changes the table only in the three ways.
pub SessionStep-Changes :
    (ports : SessionPorts) (w w' : World) → SessionStep ports w w' → Changes (tokens w) (tokens w')
SessionStep-Changes ports w w' (rotating draw now input fresh e) =
    rw e (rotate-Changes ports draw now input w fresh)
SessionStep-Changes ports w w' (signing_out now raw e) = rw e (sign_out-Changes ports now raw w)
SessionStep-Changes ports w w' (switching draw now input fresh e) =
    rw e (switch-Changes ports draw now input w fresh)
SessionStep-Changes ports w w' (signing_in draw now input fresh e) =
    rw e (login-Changes ports draw now input w fresh)

pub Changes-IsSound : {rows rows' : Tokens} → Changes rows rows' → IsSound rows → IsSound rows'
Changes-IsSound none_yet s = s
Changes-IsSound (and_then {mid} {last} c d) s = Change-IsSound mid last d (Changes-IsSound c s)

-- After any history of calls that began in a sound table, the table is sound: every row has an id
-- of its own, no family has two tokens that are not revoked, and every replaced token is revoked.
-- Each call's drawn ids are on no row when it begins.
pub SessionReach-IsSound :
    (ports : SessionPorts) {w w' : World}
    → SessionReach ports w w'
    → IsSound (tokens w)
    → IsSound (tokens w')
SessionReach-IsSound ports here s = s
SessionReach-IsSound ports (next {u} {v} r st) s =
    Changes-IsSound (SessionStep-Changes ports u v st) (SessionReach-IsSound ports r s)
