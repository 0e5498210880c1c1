-- ===== src/Plan/Complete.antt =====
-- That a plan of `build_prospective_pilot_plan` (src/pelicanbench/prospective.py) leaves out no cell.
