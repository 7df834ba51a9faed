-- ===== src/Assets/Png/Locations.antt =====
-- The parts of a PNG file that `get_object_locations_from_stream` reports.
