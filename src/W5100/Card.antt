-- ===== src/W5100/Card.antt =====
-- apps/w5100.c and apps/w5100.h: the driver over a card that keeps to its data sheet, as two queues
-- of bytes.
use ip.Common.{ℕ, ◌<◌, true, false}
use ip.Socket.{Socket, IsReceiver, IsSender, IsDuplex}
use ip.W5100.{Machine, Driver}
use ip.W5100.Bus.{IsChip}
use ip.W5100.Commit.{KeepsPointers}
use ip.W5100.Waiting.{SettlesWithin}
use ip.W5100.Patience.{IsPatient}
use ip.W5100.Interface.{driver_socket}
use ip.W5100.Receiving.{IsReceivingCard}
use ip.W5100.Receiving.Same.{Rests}
use ip.W5100.Receiving.Receiver.{IsReceivingArea, driver_socket-IsReceiver}
use ip.W5100.Sending.{IsSendingCard}
use ip.W5100.Sending.Same.{Idles}
use ip.W5100.Sending.Sender.{IsSendingArea, driver_socket-IsSender}
use ip.W5100.Duplex.{IsDuplexCard, driver_socket-IsDuplex}

-- Everything that the driver relies on: the registers, both sides of socket 1 and their memory, how long
-- a size takes to settle, and how often a request finds nothing while the peer is there.
pub record IsSocketCard (M : Machine) (d : Driver) (fuel : ℕ) : Type 0 where
  pub chip : IsChip M d
  pub pointers : KeepsPointers M d chip
  pub receives : IsReceivingCard M d chip pointers
  pub sends : IsSendingCard M d chip pointers
  pub apart : IsDuplexCard M d chip pointers receives sends
  pub receiving_area : IsReceivingArea d
  pub sending_area : IsSendingArea d
  pub limit : ℕ
  pub settles : SettlesWithin M d limit
  pub enough : limit < fuel
  pub receiving_patience : IsPatient M d fuel (Rests M d chip pointers receives) false
  pub sending_patience : IsPatient M d fuel (Idles M d chip pointers sends) true

module _ (M : Machine) (d : Driver) (fuel : ℕ) (X : IsSocketCard M d fuel) where
  abbrev pub socket : Socket
  socket = driver_socket M d fuel

  abbrev pub receiver : IsReceiver (driver_socket M d fuel)
  receiver =
      driver_socket-IsReceiver M d fuel X.chip X.pointers X.receives X.receiving_area
        X.receiving_patience X.limit X.settles X.enough

  abbrev pub sender : IsSender (driver_socket M d fuel)
  sender =
      driver_socket-IsSender M d fuel X.chip X.pointers X.sends X.sending_area X.sending_patience
        X.limit X.settles X.enough

  abbrev pub duplex : IsDuplex (driver_socket M d fuel) receiver sender
  duplex =
      driver_socket-IsDuplex M d fuel X.chip X.pointers X.receives X.sends X.apart X.sending_area
        X.receiving_area X.receiving_patience X.sending_patience X.limit X.settles X.enough

  open M use {State}

  -- Nothing is to be acknowledged or to be sent.
  abbrev pub Rested : State → Type 0
  Rested s = Rests M d X.chip X.pointers X.receives s × Idles M d X.chip X.pointers X.sends s
