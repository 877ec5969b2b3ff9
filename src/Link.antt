-- ===== src/Link.antt =====
-- The client's five methods as the operations on top of them use them (symbol.go, variable.go,
-- session.go, notification.go): each takes a request and gives a response or an error. The
-- connection and the device behind it are a world `D` that the methods may change.
use goads.Base.{Option, none, some}
use goads.Ams.Outcome.{Outcome, done, panic}
use goads.Ams.Read.{ReadRequest, ReadResponse}
use goads.Ams.Write.{WriteRequest, WriteResponse}
use goads.Ams.ReadWrite.{ReadWriteRequest, ReadWriteResponse}
use goads.Ams.AddNotification.{AddNotificationRequest, AddNotificationResponse}
use goads.Ams.DeleteNotification.{DeleteNotificationRequest, DeleteNotificationResponse}

pub record Link (D : Type 0) : Type 0 where
  pub read : ReadRequest → D → Option ReadResponse × D
  pub write : WriteRequest → D → Option WriteResponse × D
  pub read_write : ReadWriteRequest → D → Option ReadWriteResponse × D
  pub add_notification : AddNotificationRequest → D → Option AddNotificationResponse × D
  pub delete_notification : DeleteNotificationRequest → D → Option DeleteNotificationResponse × D

-- What an operation comes to: a value, an error, or a panic.
pub data Reply (A : Type 0) : Type 0 where
  ok : A → Reply A
  failed crashed : Reply A

-- An operation on a world.
abbrev pub Task : Type 0 → Type 0 → Type 0
Task W A = W → Reply A × W

module _ {W : Type 0} where
  infixl 5 ◌>>=◌ ◌>>◌
  -- What follows a reply: an error or a panic ends the operation.
  abbrev pub follow : {A B : Type 0} → Reply A × W → (A → Task W B) → Reply B × W
  follow (ok a, w) f = f a w
  follow (failed, w) f = (failed, w)
  follow (crashed, w) f = (crashed, w)

  abbrev pub ◌>>=◌ : {A B : Type 0} → Task W A → (A → Task W B) → Task W B
  ◌>>=◌ m f w = follow (m w) f

  abbrev pub ◌>>◌ : {A B : Type 0} → Task W A → Task W B → Task W B
  m >> k = m >>= λ _. k

  abbrev pub pure : {A : Type 0} → A → Task W A
  pure a w = (ok a, w)

  abbrev pub fail : {A : Type 0} → Task W A
  fail w = (failed, w)

  abbrev pub answered : {A : Type 0} → Option A × W → Reply A × W
  answered (some a, w) = (ok a, w)
  answered (none, w) = (failed, w)

  -- `resp, err := c.Read(ctx, req)` and `if err != nil { return … }`
  abbrev pub call : {A : Type 0} → (W → Option A × W) → Task W A
  call method w = answered (method w)

  -- What was made of a response: `none` is an error.
  abbrev pub parsed : {A : Type 0} → Outcome (Option A) → Task W A
  parsed (done (some a)) w = (ok a, w)
  parsed (done none) w = (failed, w)
  parsed panic w = (crashed, w)

  abbrev pub or_fail : {A : Type 0} → Option A → Task W A
  or_fail (some a) w = (ok a, w)
  or_fail none w = (failed, w)
