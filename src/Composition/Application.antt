-- ===== src/Composition/Application.antt =====
-- From the bytes that a client writes to what the application of the server is told.
use h2l.Base.{◌≡◌, refl, some, List, [], ◌∷◌, ◌++◌}
use h2l.Frame.Any.{
  Frame, data_frame, headers, priority, reset, settings, go_away, window_update, continuation,
  bin_code, unknown,
}
use h2l.Transaction.{Token, Transaction, frame}
use h2l.Server.Calls.{visible}

module _ {Sender : Type 0} where
  -- What the application is told of frames: DATA and HEADERS, as they are.
  abbrev pub shown : Token → List Frame → List (Transaction Sender)
  shown token [] = []
  shown token (data_frame d ∷ rest) = frame (data_frame d) (some token) ∷ shown token rest
  shown token (headers h ∷ rest) = frame (headers h) (some token) ∷ shown token rest
  shown token (f ∷ rest) = shown token rest

  pub visible-shown :
      (token : Token) (f : Frame) (fs : List Frame)
      → visible (frame f (some token)) ++ shown token fs ≡ shown token (f ∷ fs)
  visible-shown token (data_frame d) fs = refl
  visible-shown token (headers h) fs = refl
  visible-shown token (settings _) fs = refl
  visible-shown token (priority _) fs = refl
  visible-shown token (reset _) fs = refl
  visible-shown token (go_away _) fs = refl
  visible-shown token (window_update _) fs = refl
  visible-shown token (continuation _) fs = refl
  visible-shown token (bin_code _) fs = refl
  visible-shown token unknown fs = refl
