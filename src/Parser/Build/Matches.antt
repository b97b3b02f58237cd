-- ===== src/Parser/Build/Matches.antt =====
-- A tree that src/judo_parse.c is building, against the stack of states of src/judo_scan.c.
use judo.Api.{
  JudoToken, ScanState, Span, root_value, finished_parsing_value, finished_parsing_array_element,
  parse_object_value, finished_parsing_object_value, array_begin, array_end, object_begin,
  object_end, object_name,
}
use judo.Base.{
  suc, ◌≡◌, refl, ap, Option, none, some, List, [], ◌∷◌, ◌++◌, append_assoc, append-nil, length,
}
use judo.Parser.Build.Sites.{Ends, site_of}
use judo.Parser.Tree.{Node, no_elements, element, no_members, pair, Event, events}
use judo.Parser.Tree.Layout.{Full, events-join}
use judo.Parser.Tree.Zipper.{
  Frame, array_frame, object_frame, Site, nothing, inside, finished, put, put_in, node_of, Accepts,
  AllAccept,
}
use judo.Scanner.Grammar.{Part, elements, members}
use judo.Scanner.Moves.{InArray, InObject}

-- The states of the arrays and objects in which a value was begun.
pub data Below : List ScanState → List Frame → Type 0 where
  bottom : Below [] []
  in_array :
      {s : Span} {xs : Node elements} {f : Full elements xs} {ss : List ScanState} {fs : List Frame}
      → Below ss fs
      → Below (finished_parsing_array_element ∷ ss) (array_frame s xs f ∷ fs)
  in_object :
      {s n : Span} {ms : Node members} {f : Full members ms} {ss : List ScanState} {fs : List Frame}
      → Below ss fs
      → Below (finished_parsing_object_value ∷ ss) (object_frame s ms f (some n) ∷ fs)

-- The state of the innermost open array or object.
pub data Top : ScanState → Frame → Type 0 where
  array :
      {x : ScanState} {s : Span} {xs : Node elements} {f : Full elements xs}
      → InArray x
      → Top x (array_frame s xs f)
  object :
      {x : ScanState} {s : Span} {ms : Node members} {f : Full members ms}
      → InObject x
      → Top x (object_frame s ms f none)
  named :
      {s n : Span} {ms : Node members} {f : Full members ms}
      → Top parse_object_value (object_frame s ms f (some n))

pub data Matches : List ScanState → Site → Type 0 where
  start : Matches (root_value ∷ []) nothing
  opened :
      {x : ScanState} {f : Frame} {xs : List ScanState} {fs : List Frame}
      → Top x f
      → Below xs fs
      → Matches (x ∷ xs) (inside f fs)
  behind :
      {x : ScanState} {f : Frame} {xs : List ScanState} {fs : List Frame}
      → Top x f
      → Below xs fs
      → Matches (finished_parsing_value ∷ x ∷ xs) (inside f fs)
  done : {t : Node Part.value} → Matches (finished_parsing_value ∷ []) (finished t)

pub Below-AllAccept : {ss : List ScanState} {fs : List Frame} → Below ss fs → AllAccept fs
Below-AllAccept bottom = tt
Below-AllAccept (in_array b) = (tt, Below-AllAccept b)
Below-AllAccept (in_object b) = (tt, Below-AllAccept b)

pub length-Below : {ss : List ScanState} {fs : List Frame} → Below ss fs → length ss ≡ length fs
length-Below bottom = refl
length-Below (in_array b) = ap suc (length-Below b)
length-Below (in_object b) = ap suc (length-Below b)

pub put_in-Matches :
    {ss : List ScanState} {fs : List Frame} (x : Node Part.value)
    → Below ss fs
    → Matches (finished_parsing_value ∷ ss) (put_in x fs)
unfolding put_in put
put_in-Matches x bottom = done
put_in-Matches x (in_array b) = behind (array InArray.later) b
put_in-Matches x (in_object b) = behind (object InObject.later) b

-- The tokens of what was read.
abbrev pub name_events : Option Span → List Event
name_events none = []
name_events (some n) = (object_name, n) ∷ []

abbrev pub frame_events : Frame → List Event
frame_events (array_frame s xs f) = (array_begin, s) ∷ events xs
frame_events (object_frame s ms f n) = (object_begin, s) ∷ (events ms ++ name_events n)

unfoldable pub frames_events : List Frame → List Event
frames_events [] = []
frames_events (f ∷ fs) = frames_events fs ++ frame_events f

unfoldable pub site_events : Site → List Event
unfolding frames_events
site_events nothing = []
site_events (inside f fs) = frames_events (f ∷ fs)
site_events (finished x) = events x

frame_events-put :
    (f : Frame) (x : Node Part.value)
    → Accepts f
    → frame_events (put x f) ≡ frame_events f ++ events x
unfolding put events
frame_events-put (array_frame s xs f) x h =
    rw (events-join xs (element x no_elements) f) (simp append-nil)
frame_events-put (object_frame s ms f (some n)) x h =
    rw (events-join ms (pair n x no_members) f) (simp (append-nil, append_assoc))
frame_events-put (object_frame s ms f none) x h = absurd h

pub site_events-put_in :
    (fs : List Frame) (x : Node Part.value)
    → AllAccept fs
    → site_events (put_in x fs) ≡ frames_events fs ++ events x
unfolding site_events frames_events put_in
site_events-put_in [] x h = refl
site_events-put_in (f ∷ fs) x h = rw (frame_events-put f x h.0) (simp append_assoc)

pub site_events-site_of : (fs : List Frame) → site_events (site_of fs) ≡ frames_events fs
unfolding site_events frames_events
site_events-site_of [] = refl
site_events-site_of (f ∷ fs) = refl

-- The token that ends an array or object.
abbrev pub end_token : Frame → JudoToken
end_token (array_frame s xs f) = array_end
end_token (object_frame s ms f n) = object_end

pub events-node_of :
    (f : Frame) (end : Span)
    → Ends f
    → events (node_of (some end) f) ≡ frame_events f ++ ((end_token f, end) ∷ [])
unfolding events node_of
events-node_of (array_frame s xs f) end h = refl
events-node_of (object_frame s ms f none) end h = simp append-nil
events-node_of (object_frame s ms f (some n)) end h = absurd h
