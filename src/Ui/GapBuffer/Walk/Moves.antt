-- ===== src/Ui/GapBuffer/Walk/Moves.antt =====
-- Where the moves by words and lines leave the cursor.
use wrb.Ui.GapBuffer.{GapBuffer}
use wrb.Ui.GapBuffer.Walk.Place.{Place}
