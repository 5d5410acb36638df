-- ===== src/Server/Quiet.antt =====
-- source/server/server.cpp: FOLLOW, SEND and the worker leave the replicas alone, and FOLLOW and
-- SEND send nothing.
use piupiu.Common.{◌≡◌, refl, List, Bytes}
use piupiu.Sessions.{SocketAddress}
use piupiu.Server.{Server, PendingNotification}
use piupiu.Server.Follow.{FollowOutcome, unauthenticated, yourself, not_found, already, added}
use piupiu.Server.Posting
use piupiu.Server.Posting.{SendOutcome, posted}
use piupiu.Server.Delivery.{WorkOutcome, delivered, postponed}

pub follow-quiet :
    (s s' : Server) (a : SocketAddress) (target : Bytes)
    → FollowOutcome s a target s'
    → (s'.replicas ≡ s.replicas) × (s'.socket ≡ s.socket)
follow-quiet s s' a target (unauthenticated x e) = rw e (refl, refl)
follow-quiet s s' a target (yourself x e) = rw e (refl, refl)
follow-quiet s s' a target (not_found x e) = rw e (refl, refl)
follow-quiet s s' a target (already user i f p x y z w u e) = rw e (refl, refl)
follow-quiet s s' a target (added user i f p d x y z w u t k e) = rw e (refl, refl)

pub post-quiet :
    (s s' : Server) (a : SocketAddress) (body : Bytes)
    → SendOutcome s a body s'
    → (s'.replicas ≡ s.replicas) × (s'.socket ≡ s.socket)
post-quiet s s' a body (Posting.unauthenticated x e) = rw e (refl, refl)
post-quiet s s' a body (posted user i p x y z e) = rw e (refl, refl)

pub work-quiet :
    (s s' : Server) (n : PendingNotification) (rest : List PendingNotification)
    → WorkOutcome s n rest s'
    → s'.replicas ≡ s.replicas
work-quiet s s' n rest (delivered p ds final stored some_socket notices e) = rw e refl
work-quiet s s' n rest (postponed p stored none_there e) = rw e refl
