-- ===== src/CodePoints.antt =====
-- Python's `str` as the list of its code points, where a text is cut, compared or printed and not
-- only a name: equality, the order of `sorted`, str.strip, the lines of a text file, and the join
-- of lines that src/hate/store/indexes.py writes.
mod Order
mod Lines
unfoldable pub use Order.*
unfoldable pub use Lines.*
